-- ===== src/Config.antt =====
-- The configuration of a call (`newEngine`, `configInt` and `splitSources` of
-- go/toolsets/event-correlator/src/main.go).
pub mod Sources
pub mod Window
pub mod Defaults
pub mod Opened
use event_correlator_tool.Common.{
  ℕ, String, ◌<>◌, Bool, true, false, not, ◌||◌, Option, none, some, List, [], ◌∷◌, if◌then◌else◌,
  ◌==◌, length, eqb, Result, ok, err, panic, ◌>>=◌, wrap,
}
use event_correlator_tool.Common.Int.{ℤ, pos, ◌*ℤ◌, wrap_int64, leb_ℤ, pos_part, neg_part}
use event_correlator_tool.Common.Dict
use event_correlator_tool.Common.Dict.{Dict, StringSet}
use event_correlator_tool.Common.Strings.{trim_space, split, atoi}
use event_correlator_tool.Clock.{Duration, second}
use event_correlator_tool.Model.{Float64}
use event_correlator_tool.Engine.{Engine, new_engine}
use event_correlator_tool.Sdk.Context.{
  ToolContext, Value, null, text, float, int, other, get_config, get_config_string,
  ConfigSchemaField,
}

-- `configSchema`
abbrev pub config_schema : List ConfigSchemaField
config_schema =
    record {
      key = "database_url";
      kind = "string";
      description =
          "PostgreSQL connection string used for durable pending events and audit history.";
      required = true;
      secret = true;
      default = none;
      options = [];
    }
    ∷ record {
      key = "expected_sources";
      kind = "string";
      description = "Comma-separated source names required to reconcile a trade.";
      required = true;
      secret = false;
      default = some (text "solar,murex,client_reporting");
      options = [];
    }
    ∷ record {
      key = "correlation_window_seconds";
      kind = "integer";
      description = "Seconds to wait after the first event before a trade becomes a break.";
      required = true;
      secret = false;
      default = some (int (pos 300));
      options = [];
    }
    ∷ []

-- The loop of `splitSources`: what it appends to `sources`, with `seen` so far.
unfoldable pub new_sources : List String → StringSet → List String
new_sources [] seen = []
new_sources (piece ∷ pieces) seen =
    let source = trim_space piece in
    let skip = source == "" || Dict.has seen source in
    let rest = new_sources pieces (if skip then seen else Dict.set seen source tt) in
    if skip then rest else source ∷ rest

unfoldable pub split_sources : String → List String
split_sources value = new_sources (split b',' value) []

-- `time.Duration(windowSeconds)*time.Second`, in an int64
unfoldable pub window_of : ℤ → Duration
window_of seconds = wrap_int64 (seconds *ℤ second)

-- `err != nil || windowSeconds <= 0`
abbrev pub positive : Result ℤ → Option ℤ
positive (ok n) = if leb_ℤ n (pos 0) then none else some n
positive (err e) = none
positive panic = none

-- The checks of `newEngine`, from the texts and the number that it reads
unfoldable pub configure_from : String → String → Result ℤ → Result (String × Engine)
configure_from database_text sources_text window =
    let database_url = trim_space database_text in
    let sources = split_sources sources_text in
    if database_url == ""
    then err "database_url tool configuration is required"
    else if eqb (length sources) 0
    then err "expected_sources must contain at least one source"
    else elim (positive window) [
      | none ↦ err "correlation_window_seconds must be a positive integer"
      | some seconds ↦ ok (database_url, new_engine sources (window_of seconds))
    ]

module _ (int_of_float : Float64 → ℤ) where
  -- The switch of `configInt`; `int_of_float` is Go's conversion of a float64 to an int.
  abbrev pub int_of_value : Value → Result ℤ
  int_of_value null = err "unsupported value type"
  int_of_value (text s) = elim (atoi s) [ none ↦ err "invalid syntax" | some n ↦ ok n ]
  int_of_value (float x) = ok (int_of_float x)
  int_of_value (int n) = ok n
  int_of_value other = err "unsupported value type"

  unfoldable pub config_int : ToolContext → String → ℤ → Result ℤ
  config_int tc key default = elim (get_config tc key) [
    | none ↦ ok default
    | some null ↦ ok default
    | some v ↦ int_of_value v
  ]

  -- `newEngine` up to its first use of the database: its URL and the engine.
  unfoldable pub configure : ToolContext → Result (String × Engine)
  configure tc =
      configure_from (get_config_string tc "database_url" "")
        (get_config_string tc "expected_sources" "solar,murex,client_reporting")
        (config_int tc "correlation_window_seconds" (pos 300))

  -- `newEngine`: `connect` and `migrate` are `postgres.New` and the store's `Migrate`, each of
  -- which gives an error's text or nothing.
  unfoldable pub open_engine :
      (String → Option String) → Option String → ToolContext → Result Engine
  open_engine connect migrate tc = do
    (database_url, engine) ← configure tc
    elim (connect database_url) [
      | some e ↦ err ("open database: " <> e)
      | none ↦ elim migrate [ some e ↦ err ("migrate database: " <> e) | none ↦ ok engine ]
    ]

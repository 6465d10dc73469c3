-- ===== src/Config/Defaults.antt =====
-- The defaults of `configSchema` against those of `newEngine` in main.go.
use event_correlator_tool.Common.{
  String, none, some, List, [], ◌∷◌, ◌≡◌, ◌∙◌, ap, arith, if◌then◌else◌, ◌==◌, string_discrete,
}
use mathlib.Core.Option
use event_correlator_tool.Common.Int.{ℤ, pos}
use event_correlator_tool.Common.Dict
use event_correlator_tool.Common.Dict.{Dict}
use event_correlator_tool.Model.{Float64}
use event_correlator_tool.Sdk.Context.{
  ToolContext, Value, text, int, get_config, get_config_string, ConfigSchemaField,
}
use event_correlator_tool.Config.{config_schema, config_int, configure_from, configure}

-- A key that the configuration lacks gets a value.
abbrev pub fill : Dict Value → String → Value → Dict Value
fill config key v = if Dict.has config key then config else Dict.set config key v

-- A configuration in which the keys that it lacks have the schema's defaults.
abbrev pub with_defaults : List ConfigSchemaField → Dict Value → Dict Value
with_defaults [] config = config
with_defaults (field ∷ fields) config =
    let rest = with_defaults fields config in
    elim field.default [ none ↦ rest | some v ↦ fill rest field.key v ]

get-fill :
    (config : Dict Value) (key k : String) (v : Value)
    → Dict.get (fill config key v) k
      ≡ (if key == k then some (Option.get_or (Dict.get config key) v) else Dict.get config k)
get-fill config key k v = ground (arith, Dict.has-get config key, Dict.get-set config key k v)

module _ (config : Dict Value) where
  abbrev full : Dict Value
  full = with_defaults config_schema config

  abbrev windowed : Dict Value
  windowed = fill config "correlation_window_seconds" (int (pos 300))

  get-database_url : Dict.get full "database_url" ≡ Dict.get config "database_url"
  unfolding string_discrete
  get-database_url =
      get-fill windowed "expected_sources" "database_url" (text "solar,murex,client_reporting")
      ∙ get-fill config "correlation_window_seconds" "database_url" (int (pos 300))

  get-expected_sources :
      Dict.get full "expected_sources"
      ≡ some
          (Option.get_or (Dict.get config "expected_sources") (text "solar,murex,client_reporting"))
  unfolding string_discrete
  get-expected_sources =
      get-fill windowed "expected_sources" "expected_sources" (text "solar,murex,client_reporting")
      ∙ ap (λ o. some (Option.get_or o (text "solar,murex,client_reporting")))
          (get-fill config "correlation_window_seconds" "expected_sources" (int (pos 300)))

  get-window :
      Dict.get full "correlation_window_seconds"
      ≡ some (Option.get_or (Dict.get config "correlation_window_seconds") (int (pos 300)))
  unfolding string_discrete
  get-window =
      get-fill windowed "expected_sources" "correlation_window_seconds"
        (text "solar,murex,client_reporting")
      ∙ get-fill config "correlation_window_seconds" "correlation_window_seconds" (int (pos 300))

module _ (int_of_float : Float64 → ℤ) (tc : ToolContext) where
  abbrev filled : ToolContext
  filled = record tc { config = full tc.config }

  database_url-eq :
      get_config_string filled "database_url" "" ≡ get_config_string tc "database_url" ""
  unfolding get_config_string
  database_url-eq = ground (arith, get-database_url tc.config)

  sources-eq :
      get_config_string filled "expected_sources" "solar,murex,client_reporting"
      ≡ get_config_string tc "expected_sources" "solar,murex,client_reporting"
  unfolding get_config_string
  sources-eq = ground (arith, get-expected_sources tc.config)

  window-eq :
      config_int int_of_float filled "correlation_window_seconds" (pos 300)
      ≡ config_int int_of_float tc "correlation_window_seconds" (pos 300)
  unfolding config_int get_config
  window-eq = ground (arith, get-window tc.config)

  -- The schema's defaults are those of `newEngine`: a configuration whose missing keys are filled
  -- in from the schema gives the same engine, or the same error, as the configuration itself.
  pub configure-with_defaults :
      configure int_of_float (record tc { config = with_defaults config_schema tc.config })
      ≡ configure int_of_float tc
  unfolding configure
  configure-with_defaults i = configure_from (database_url-eq i) (sources-eq i) (window-eq i)

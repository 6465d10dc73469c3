-- ===== src/Tests/Builds.antt =====
-- The theorems on the engine's events, on the configuration and on the queries at concrete data.
use event_correlator_tool.Common.{
  ◌<◌, String, not, ◌&&◌, none, some, List, [], ◌∷◌, ◌≡◌, ◌↔◌, refl, contains, Distinct, Perm,
  length, map, string_discrete, arith, ◌==◌,
}
use event_correlator_tool.Common.Int.{pos, ◌<ℤ◌}
use event_correlator_tool.Common.Dict
use event_correlator_tool.Common.Strings.{trim_space, split}
use event_correlator_tool.Clock.{add}
use event_correlator_tool.Model.{BreakEvent, ReconciledEvent}
use event_correlator_tool.Store.{PendingTrade, AuditFilter}
use event_correlator_tool.Engine.{Engine, new_engine, sort_events, build_reconciled, build_break}
use event_correlator_tool.Engine.Times.{
  some_event, Spans, build_reconciled-Spans, build_break-Expires,
}
use event_correlator_tool.Clock.{before}
use event_correlator_tool.Common.{str_lt}
use event_correlator_tool.Common.Sorting.{insert, sort, sort_func}
use event_correlator_tool.Engine.{compare_strings, break_of, reconciled_of}
use event_correlator_tool.Engine.Break.{Reports, build_break-none_iff, build_break-Reports}
use event_correlator_tool.Engine.Reconciled.{Sums, build_reconciled-Sums}
use event_correlator_tool.Engine.Order.{build_reconciled-eq_of_perm, build_break-eq_of_perm}
use event_correlator_tool.Sdk.Context.{ToolContext, text}
use event_correlator_tool.Config.Defaults.{with_defaults, configure-with_defaults}
use event_correlator_tool.Config.{config_schema, configure, split_sources, window_of}
use event_correlator_tool.Config.Sources.{split_sources_exact}
use event_correlator_tool.Config.Window.{window_of-overflow}
use event_correlator_tool.Handlers.{GetAuditHistoryParams}
use mathlib.Core.List.{Permᴰ}
use event_correlator_tool.Tests.{sources, window, codec, row_of}

abbrev engine : Engine
engine = new_engine sources window

abbrev one : List PendingTrade
one = row_of "t1" "solar" (pos 9) ∷ []

abbrev two : List PendingTrade
two = row_of "t1" "solar" (pos 9) ∷ row_of "t1" "murex" (pos 9) ∷ []

abbrev swapped : List PendingTrade
swapped = row_of "t1" "murex" (pos 9) ∷ row_of "t1" "solar" (pos 9) ∷ []

reported :
    (b : BreakEvent) × (build_break codec engine "t1" one (pos 9) ≡ some (sort_events one, b))
    × Reports engine "t1" one (pos 9) b
unfolding new_engine Dict.set_of Dict.set string_discrete
reported = build_break-Reports codec engine "t1" one (pos 9) (omega arith)

-- One event more than sources are expected
abbrev three : List PendingTrade
three = row_of "t1" "other" (pos 9) ∷ two

too_many :
    (build_break codec engine "t1" three (pos 9) ≡ none)
    ↔ (length engine.expected_sources < length three)
too_many = build_break-none_iff codec engine "t1" three (pos 9)

panics : build_break codec engine "t1" three (pos 9) ≡ none
unfolding new_engine Dict.set_of Dict.set string_discrete
panics = too_many.1 (omega arith)

summed :
    (r : ReconciledEvent) × (build_reconciled codec two (pos 9) ≡ some (sort_events two, r))
    × Sums "t1" two (pos 9) r
summed = build_reconciled-Sums codec two (pos 9) "t1" (λ e. cc) (refl, (refl, tt))

two-Perm : Perm two swapped
two-Perm = ∣ Permᴰ.swap refl refl ∣₁

same_event : build_reconciled codec two (pos 9) ≡ build_reconciled codec swapped (pos 9)
unfolding contains string_discrete
same_event = build_reconciled-eq_of_perm codec two swapped two-Perm (refl, (refl, tt)) (pos 9)

same_break :
    build_break codec engine "t1" two (pos 9) ≡ build_break codec engine "t1" swapped (pos 9)
unfolding contains string_discrete
same_break =
    build_break-eq_of_perm codec two swapped two-Perm (refl, (refl, tt)) (pos 9) engine "t1"

split_pieces :
    Distinct (split_sources "a, b,a")
    × ((a : String)
        → contains (split_sources "a, b,a") a
          ≡ (contains (map trim_space (split b',' "a, b,a")) a && not (a == "")))
split_pieces = split_sources_exact "a, b,a"

too_long : add (pos 7) (window_of (pos 9_300_000_000)) <ℤ pos 7
too_long = window_of-overflow 9_300_000_000 (pos 7) (omega arith) (omega arith)

abbrev query : GetAuditHistoryParams
query = record { trade_id = none; outcome = some "break"; limit = some (pos 5) }

abbrev filter : AuditFilter
filter = record { trade_id = ""; outcome = "break"; limit = pos 5 }

abbrev pub settings : ToolContext
settings = record {
  user_id = "";
  session_id = "";
  app_name = "";
  task_id = "";
  volume_mounts = [];
  config = ("database_url", text "postgres://db") ∷ [];
  output_dir = "";
  oauth_token = "";
  auth_headers = [];
  artifact_paths = [];
  artifact_meta = [];
}

defaulted :
    configure
      (λ x. pos 0)
      (record settings { config = with_defaults config_schema settings.config })
    ≡ configure (λ x. pos 0) settings
defaulted = configure-with_defaults (λ x. pos 0) settings

first_times :
    Spans codec two
      (pos 9)
      (reconciled_of codec (row_of "t1" "murex" (pos 9)) (sort_events two) (pos 9))
unfolding build_reconciled sort_events sort_func sort insert compare_strings str_lt
first_times = build_reconciled-Spans codec two (pos 9) (sort_events two) _ refl (refl, (refl, tt))

expires_last :
    before (pos 8) (break_of codec engine "t1" (sort_events one) (pos 9)).window_expiry
    ≡ some_event (λ event. before (pos 8) event.deadline) one
unfolding build_break new_engine Dict.set_of Dict.set string_discrete sort_events
expires_last =
    build_break-Expires codec one (pos 9) engine "t1" (sort_events one) _ (pos 8) refl refl

-- ===== src/Config/Opened.antt =====
-- What `newEngine` of main.go gives: an error, or an engine with the sources of the configuration.
use event_correlator_tool.Common.{
  String, ◌<>◌, Option, List, ◌≡◌, refl, ap, ◌⊎◌, inl, inr, length, Result, ok, err, ◌==◌, eqb,
  Bool-cases, Option-cases,
}
use event_correlator_tool.Common.Int.{ℤ, pos}
use event_correlator_tool.Common.Strings.{trim_space}
use event_correlator_tool.Clock.{Duration}
use event_correlator_tool.Model.{Float64}
use event_correlator_tool.Engine.{new_engine}
use event_correlator_tool.Config.{
  split_sources, positive, window_of, configure_from, config_int, configure, open_engine,
}
use event_correlator_tool.Sdk.Context.{ToolContext, get_config_string}

-- A configuration for these expected sources
abbrev pub IsFor : List String → ToolContext → Type 0
IsFor sources tc =
    split_sources (get_config_string tc "expected_sources" "solar,murex,client_reporting") ≡ sources

-- What the checks of `newEngine` give: an error, or an engine with the configuration's sources
configure_from-cases :
    (database sources : String) (w : Result ℤ)
    → ((m : String) × (configure_from database sources w ≡ err m))
      ⊎ ((url : String) × (window : Duration) × (configure_from database sources w
            ≡ ok (url, new_engine (split_sources sources) window)))
unfolding configure_from
configure_from-cases database sources w = elim (Bool-cases (trim_space database == "")) [
  | inl a ↦ inl ("database_url tool configuration is required", rw (a, configure_from) refl)
  | inr a ↦ elim (Bool-cases (eqb (length (split_sources sources)) 0)) [
    | inl b ↦
        inl ("expected_sources must contain at least one source", rw (a, b, configure_from) refl)
    | inr b ↦ elim (Option-cases (positive w)) [
      | inl c ↦ inl (
        "correlation_window_seconds must be a positive integer",
        rw (a, b, c, configure_from) refl,
      )
      | inr (n, c) ↦ inr (trim_space database, window_of n, rw (a, b, c, configure_from) refl)
    ]
  ]
]

module _ (int_of_float : Float64 → ℤ) (connect : String → Option String) (migrate : Option String)
    (sources : List String) (tc : ToolContext) where
  -- `newEngine` fails, or gives an engine with the configuration's sources; it does not panic.
  pub open_engine-cases :
      IsFor sources tc
      → ((m : String) × (open_engine int_of_float connect migrate tc ≡ err m))
        ⊎ ((window : Duration) × (open_engine int_of_float connect migrate tc
              ≡ ok (new_engine sources window)))
  unfolding open_engine configure
  open_engine-cases same =
      elim (configure_from-cases (get_config_string tc "database_url" "")
        (get_config_string tc "expected_sources" "solar,murex,client_reporting")
        (config_int int_of_float tc "correlation_window_seconds" (pos 300))) [
          | inl (m, a) ↦ inl (m, rw (a, open_engine) refl)
          | inr (url, window, a) ↦ elim (Option-cases (connect url)) [
            | inr (m, b) ↦ inl ("open database: " <> m, rw (a, b, open_engine) refl)
            | inl b ↦ elim (Option-cases migrate) [
              | inr (m, c) ↦ inl ("migrate database: " <> m, rw (a, b, c, open_engine) refl)
              | inl c ↦
                  inr (window, rw (a, b, c, open_engine) (ap (λ l. ok (new_engine l window)) same))
            ]
          ]
        ]

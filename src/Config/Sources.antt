-- ===== src/Config/Sources.antt =====
-- What `splitSources` of main.go returns.
use event_correlator_tool.Common.{
  String, not, ◌&&◌, List, [], ◌∷◌, map, ◌≡◌, refl, arith, ◌==◌, contains, Distinct,
}
use event_correlator_tool.Common.Dict
use event_correlator_tool.Common.Dict.{StringSet}
use event_correlator_tool.Common.Strings.{trim_space, split}
use event_correlator_tool.Config.{new_sources, split_sources}

contains-new_sources :
    (pieces : List String) (seen : StringSet) (a : String)
    → contains (new_sources pieces seen) a
      ≡ (contains (map trim_space pieces) a && not (a == "") && not (Dict.has seen a))
unfolding new_sources contains
contains-new_sources [] seen a = refl
contains-new_sources (piece ∷ pieces) seen a = ground (
  arith,
  contains-new_sources pieces seen a,
  contains-new_sources pieces (Dict.set seen (trim_space piece) tt) a,
  Dict.has-set seen (trim_space piece) a tt,
)

new_sources-Distinct :
    (pieces : List String) (seen : StringSet) → Distinct (new_sources pieces seen)
unfolding new_sources
new_sources-Distinct [] seen = tt
new_sources-Distinct (piece ∷ pieces) seen = ground (
  arith,
  new_sources-Distinct pieces seen,
  new_sources-Distinct pieces (Dict.set seen (trim_space piece) tt),
  contains-new_sources pieces (Dict.set seen (trim_space piece) tt) (trim_space piece),
  Dict.has-set seen (trim_space piece) (trim_space piece) tt,
)

-- The sources are distinct, and they are exactly the pieces between commas, trimmed, that are not
-- empty.
pub split_sources_exact :
    (value : String)
    → Distinct (split_sources value)
      × ((a : String)
          → contains (split_sources value) a
            ≡ (contains (map trim_space (split b',' value)) a && not (a == "")))
unfolding split_sources Dict.has
split_sources_exact value = (
  new_sources-Distinct (split b',' value) [],
  λ a. ground (arith, contains-new_sources (split b',' value) [] a),
)

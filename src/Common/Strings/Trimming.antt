-- ===== src/Common/Strings/Trimming.antt =====
-- `strings.TrimSpace` of a trimmed text.
use Prim.Native.Char.{code}
use Prim.Native.String.{String}
use mathlib.Core.Path.{◌≡◌, refl, ◌∙◌, ap}
use mathlib.Core.Bool.{Bool, true, not}
use native.Mathlib.Omega.{arith}
use event_correlator_tool.Common.Strings.{is_space, trim_left, trim_right, trim_space}

-- A text that does not begin with a space
begins : String → Bool
begins String.[] = true
begins (String.◌∷◌ c s) = not (is_space (code c))

begins-trim_left : (s : String) → begins (trim_left s) ≡ true
unfolding begins trim_left
begins-trim_left String.[] = refl
begins-trim_left (String.◌∷◌ c s) = ground (arith, begins-trim_left s)

trim_left-eq : (s : String) → begins s ≡ true → trim_left s ≡ s
unfolding begins trim_left
trim_left-eq String.[] h = refl
trim_left-eq (String.◌∷◌ c s) h = ground arith

begins-trim_right : (s : String) → begins s ≡ true → begins (trim_right s) ≡ true
unfolding begins trim_right
begins-trim_right String.[] h = refl
begins-trim_right (String.◌∷◌ c s) h = ground arith

trim_right_idem : (s : String) → trim_right (trim_right s) ≡ trim_right s
unfolding trim_right
trim_right_idem String.[] = refl
trim_right_idem (String.◌∷◌ c s) = ground (arith, trim_right_idem s)

pub trim_space_idem : (s : String) → trim_space (trim_space s) ≡ trim_space s
unfolding trim_space
trim_space_idem s =
    ap trim_right (
      trim_left-eq (trim_right (trim_left s))
        (begins-trim_right (trim_left s) (begins-trim_left s)))
    ∙ trim_right_idem (trim_left s)

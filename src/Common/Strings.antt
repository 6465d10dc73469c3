-- ===== src/Common/Strings.antt =====
-- What the program uses of Go's packages strings and strconv.
pub mod Trimming
use Prim.Native.Nat.{ℕ, zero, suc, ◌+◌, ◌-◌, ◌*◌, ◌/◌, ◌%◌}
use Prim.Native.Char.{Char, code}
use Prim.Native.String.{String, ◌++◌ as ◌<>◌}
use mathlib.Core.Path.{◌≡◌, refl}
use mathlib.Core.Bool.{Bool, true, false, ◌&&◌, ◌||◌}
use mathlib.Core.Option.{Option, none, some}
use mathlib.Core.List.{List, [], ◌∷◌}
use event_correlator_tool.Common.Text.{if◌then◌else◌, leb, eqb, ltb, ◌==◌, string_discrete}
use event_correlator_tool.Common.Int.{ℤ, pos, neg_ℕ, max_int64, min_int64, leb_ℤ}

-- `unicode.IsSpace`
unfoldable pub is_space : ℕ → Bool
is_space c =
    (leb 9 c && leb c 13)
    || eqb c 32
    || eqb c 0x85
    || eqb c 0xA0
    || eqb c 0x1680
    || (leb 0x2000 c && leb c 0x200a)
    || eqb c 0x2028
    || eqb c 0x2029
    || eqb c 0x202f
    || eqb c 0x205f
    || eqb c 0x3000

abbrev pub is_empty : String → Bool
is_empty String.[] = true
is_empty (String.◌∷◌ c s) = false

unfoldable pub trim_left : String → String
unfolding is_space
trim_left String.[] = String.[]
trim_left (String.◌∷◌ c s) =
    let rest = trim_left s in if is_space (code c) then rest else String.◌∷◌ c s

unfoldable pub trim_right : String → String
unfolding is_space
trim_right String.[] = String.[]
trim_right (String.◌∷◌ c s) =
    let rest = trim_right s in
    if is_space (code c) && is_empty rest then String.[] else String.◌∷◌ c rest

-- `strings.TrimSpace`
unfoldable pub trim_space : String → String
unfolding trim_left trim_right
trim_space s = trim_right (trim_left s)

-- One more character in front of the first piece.
abbrev pub push_front : Char → List String → List String
push_front c [] = (String.◌∷◌ c String.[]) ∷ []
push_front c (piece ∷ pieces) = (String.◌∷◌ c piece) ∷ pieces

-- `strings.Split(s, sep)`, for a separator of one character with this code
unfoldable pub split : ℕ → String → List String
split sep String.[] = String.[] ∷ []
split sep (String.◌∷◌ c s) =
    let pieces = split sep s in if eqb (code c) sep then String.[] ∷ pieces else push_front c pieces

unfoldable pub digits_value : ℕ → String → Option ℕ
digits_value n String.[] = some n
digits_value n (String.◌∷◌ c s) =
    let rest = digits_value (n * 10 + (code c - 48)) s in
    if leb 48 (code c) && leb (code c) 57 then rest else none

-- The digits of a number, of which there must be one at least.
unfoldable pub natural : String → Option ℕ
unfolding digits_value
natural String.[] = none
natural (String.◌∷◌ c s) = digits_value 0 (String.◌∷◌ c s)

-- An `int` of 64 bits, or a range error.
unfoldable pub in_range : ℤ → Option ℤ
in_range a = if leb_ℤ min_int64 a && leb_ℤ a max_int64 then some a else none

abbrev pub signed : (ℕ → ℤ) → Option ℕ → Option ℤ
signed sign none = none
signed sign (some n) = in_range (sign n)

-- `strconv.Atoi`; `none` is an error.
unfoldable pub atoi : String → Option ℤ
unfolding natural in_range
atoi String.[] = none
atoi (String.◌∷◌ c s) =
    if eqb (code c) b'-'
    then signed neg_ℕ (natural s)
    else signed pos (natural (if eqb (code c) b'+' then s else String.◌∷◌ c s))

digit : ℕ → String
digit zero = "0"
digit (suc zero) = "1"
digit (suc (suc zero)) = "2"
digit (suc (suc (suc zero))) = "3"
digit (suc (suc (suc (suc zero)))) = "4"
digit (suc (suc (suc (suc (suc zero))))) = "5"
digit (suc (suc (suc (suc (suc (suc zero)))))) = "6"
digit (suc (suc (suc (suc (suc (suc (suc zero))))))) = "7"
digit (suc (suc (suc (suc (suc (suc (suc (suc zero)))))))) = "8"
digit _ = "9"

-- The fuel is the number itself, which has fewer digits.
decimal_of : ℕ → ℕ → String
decimal_of zero n = digit n
decimal_of (suc fuel) n =
    let rest = decimal_of fuel (n / 10) in if ltb n 10 then digit n else rest <> digit (n % 10)

-- `%d`
unfoldable pub decimal : ℕ → String
unfolding decimal_of digit
decimal n = decimal_of n n

decimal_test : ◌==◌ (decimal 405) "405" ≡ true
unfolding decimal string_discrete
decimal_test = refl

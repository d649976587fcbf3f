-- ===== src/Base/Parse.antt =====
-- What the source uses of Go's `strconv`, and the functions of `strings` that cut a text in words.
use Prim.Native.Nat.{ℕ, zero, suc, ◌+◌, ◌-◌, ◌*◌, ◌^◌}
use mathlib.Core.Bool.{Bool, ◌&&◌}
use mathlib.Core.Option.{Option, none, some}
use mathlib.Core.List.{List, [], ◌∷◌}
use apm2go.Base.Tests.{ltb, leb, ◌==◌, if◌then◌else◌}
use apm2go.Base.Lists.{is_empty}
use apm2go.Base.Eq.{Bytes}
use apm2go.Base.Text.{is_space}
use apm2go.Base.Int.{ℤ, pos, negsuc}

-- The value of a digit or a letter.
abbrev pub digit_of : ℕ → Option ℕ
digit_of c =
    if leb b'0' c && leb c b'9'
    then some (c - b'0')
    else if leb b'a' c && leb c b'z'
    then some (c - b'a' + 10)
    else if leb b'A' c && leb c b'Z'
    then some (c - b'A' + 10)
    else none

abbrev pub more_digits : ℕ → ℕ → Option ℕ → Option ℕ
more_digits base acc none = none
more_digits base acc (some d) = if ltb d base then some (acc * base + d) else none

unfoldable pub digits : ℕ → ℕ → Bytes → Option ℕ
digits base acc [] = some acc
digits base acc (c ∷ s) = elim (more_digits base acc (digit_of c)) [
  | none ↦ none
  | some n ↦ digits base n s
]

-- The number that a text spells, if it is below a bound.
abbrev pub below : ℕ → Option ℕ → Option ℕ
below bound none = none
below bound (some n) = if ltb n bound then some n else none

-- strconv.ParseUint s base bits
unfoldable pub parse_uint : Bytes → ℕ → ℕ → Option ℕ
unfolding digits
parse_uint s base bits = if is_empty s then none else below (2 ^ bits) (digits base 0 s)

abbrev pub negated : Option ℕ → Option ℤ
negated none = none
negated (some zero) = some (pos 0)
negated (some (suc n)) = some (negsuc n)

abbrev pub positive : Option ℕ → Option ℤ
positive none = none
positive (some n) = some (pos n)

-- strconv.Atoi: a sign, then decimal digits, within 64 bits.
unfoldable pub atoi : Bytes → Option ℤ
unfolding digits
atoi [] = none
atoi (c ∷ s) =
    if c == b'-'
    then (if is_empty s then none else negated (below (2 ^ 63 + 1) (digits 10 0 s)))
    else if c == b'+'
    then (if is_empty s then none else positive (below (2 ^ 63) (digits 10 0 s)))
    else positive (below (2 ^ 63) (digits 10 0 (c ∷ s)))

abbrev add_word : Bytes → List Bytes → List Bytes
add_word w ws = if is_empty w then ws else w ∷ ws

-- The word that the text begins in, and those behind it.
unfoldable pub words : (ℕ → Bool) → Bytes → Bytes × List Bytes
words p [] = ([], [])
words p (c ∷ s) = let (w, ws) = words p s in if p c then ([], add_word w ws) else (c ∷ w, ws)

-- strings.FieldsFunc s p
unfoldable pub fields_func : (ℕ → Bool) → Bytes → List Bytes
unfolding words
fields_func p s = let (w, ws) = words p s in add_word w ws

-- strings.Fields s
abbrev pub fields : Bytes → List Bytes
fields = fields_func is_space

abbrev pub nearest : ℕ → Option ℕ → ℕ
nearest largest none = 0
nearest largest (some n) = if ltb largest n then largest else n

abbrev pub minus : ℕ → ℤ
minus zero = pos zero
minus (suc n) = negsuc n

-- The number that strconv.Atoi returns beside its error: 0 for what is no number, the nearest one for
-- what does not fit.
unfoldable pub atoi_value : Bytes → ℤ
unfolding digits
atoi_value [] = pos 0
atoi_value (c ∷ s) =
    if c == b'-'
    then (if is_empty s then pos 0 else minus (nearest (2 ^ 63) (digits 10 0 s)))
    else if c == b'+'
    then (if is_empty s then pos 0 else pos (nearest (2 ^ 63 - 1) (digits 10 0 s)))
    else pos (nearest (2 ^ 63 - 1) (digits 10 0 (c ∷ s)))

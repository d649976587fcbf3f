-- ===== src/Base/Text.antt =====
-- What the source uses of Go's `strings`, over bytes. Case and white space are those of ASCII.
use apm2go.Base.Tests.{leb, ◌==◌, ==_iff, if◌then◌else◌}
use apm2go.Base.Lists.{is_empty}
use apm2go.Base.Eq.{Bytes, bytes_eq}
use Prim.Native.Nat.{ℕ, suc, ◌+◌}
use mathlib.Core.Path.{◌≡◌, refl}
use mathlib.Core.Bool.{Bool, true, false, ◌&&◌, ◌||◌}
use mathlib.Core.Option.{Option, none, some}
use mathlib.Core.List.{List, [], ◌∷◌, ◌++◌, map}
use native.Mathlib.Omega.{arith}

unfoldable pub lower : ℕ → ℕ
lower c = if leb b'A' c && leb c b'Z' then c + 32 else c

unfoldable pub to_lower : Bytes → Bytes
unfolding lower
to_lower = map lower

-- strings.HasPrefix s p
unfoldable pub has_prefix : Bytes → Bytes → Bool
has_prefix s [] = true
has_prefix [] (c ∷ p) = false
has_prefix (a ∷ s) (c ∷ p) = a == c && has_prefix s p

-- strings.CutPrefix s p: what stands behind the prefix, if there is one.
unfoldable pub cut_prefix : Bytes → Bytes → Option Bytes
cut_prefix s [] = some s
cut_prefix [] (c ∷ p) = none
cut_prefix (a ∷ s) (c ∷ p) = let rest = cut_prefix s p in if a == c then rest else none

-- strings.HasSuffix s p
unfoldable pub has_suffix : Bytes → Bytes → Bool
unfolding bytes_eq
has_suffix [] p = is_empty p
has_suffix (a ∷ s) p = bytes_eq (a ∷ s) p || has_suffix s p

-- strings.Contains s p
unfoldable pub has_substring : Bytes → Bytes → Bool
unfolding has_prefix
has_substring [] p = is_empty p
has_substring (a ∷ s) p = has_prefix (a ∷ s) p || has_substring s p

-- strings.IndexByte s c
unfoldable pub index_byte : Bytes → ℕ → Option ℕ
index_byte [] c = none
index_byte (a ∷ s) c =
    let later = index_byte s c in
    if a == c then some 0 else (elim later [ none ↦ none | some i ↦ some (suc i) ])

-- strings.Join parts sep
unfoldable pub join : Bytes → List Bytes → Bytes
join sep [] = []
join sep (p ∷ []) = p
join sep (p ∷ q ∷ ps) = p ++ (sep ++ join sep (q ∷ ps))

-- Puts a byte before the first part.
abbrev pub push_first : ℕ → List Bytes → List Bytes
push_first c [] = (c ∷ []) ∷ []
push_first c (p ∷ ps) = (c ∷ p) ∷ ps

-- strings.Split s sep, at a one-byte separator: never empty.
unfoldable pub split : ℕ → Bytes → List Bytes
split sep [] = [] ∷ []
split sep (c ∷ s) = let parts = split sep s in if c == sep then [] ∷ parts else push_first c parts

-- strings.Cut s sep, at a one-byte separator: before, after, found.
unfoldable pub cut : ℕ → Bytes → Bytes × Bytes × Bool
cut sep [] = ([], [], false)
cut sep (c ∷ s) = let r = cut sep s in if c == sep then ([], s, true) else (c ∷ r.0, r.1, r.2)

unfoldable pub is_space : ℕ → Bool
is_space c = (leb 9 c && leb c 13) || c == 32

-- strings.TrimLeftFunc
unfoldable pub trim_left : (ℕ → Bool) → Bytes → Bytes
trim_left p [] = []
trim_left p (c ∷ s) = let rest = trim_left p s in if p c then rest else c ∷ s

-- strings.TrimRightFunc: the longest tail of such bytes goes.
unfoldable pub trim_right : (ℕ → Bool) → Bytes → Bytes
trim_right p [] = []
trim_right p (c ∷ s) = let rest = trim_right p s in if p c && is_empty rest then [] else c ∷ rest

-- strings.TrimSpace
unfoldable pub trim_space : Bytes → Bytes
unfolding trim_left trim_right is_space
trim_space s = trim_right is_space (trim_left is_space s)

-- No part holds the separator.
unfoldable pub has_byte : ℕ → Bytes → Bool
has_byte c [] = false
has_byte c (a ∷ s) = a == c || has_byte c s

pub split-ne-nil : (sep : ℕ) (s : Bytes) → is_empty (split sep s) ≡ false
unfolding split
split-ne-nil sep [] = refl
split-ne-nil sep (c ∷ s) = ground (arith, split-ne-nil sep s)

join-nil_cons :
    (sep : ℕ) (ps : List Bytes)
    → is_empty ps ≡ false
    → join (sep ∷ []) ([] ∷ ps) ≡ sep ∷ join (sep ∷ []) ps
unfolding join
join-nil_cons sep [] h = cc
join-nil_cons sep (p ∷ ps) h = refl

join-push_first :
    (sep c : ℕ) (ps : List Bytes)
    → is_empty ps ≡ false
    → join (sep ∷ []) (push_first c ps) ≡ c ∷ join (sep ∷ []) ps
unfolding join
join-push_first sep c [] h = cc
join-push_first sep c (p ∷ []) h = refl
join-push_first sep c (p ∷ q ∷ ps) h = refl

-- Joining what was split gives the text back.
pub join-split : (sep : ℕ) (s : Bytes) → join (sep ∷ []) (split sep s) ≡ s
unfolding split
join-split sep [] = unfold join in refl
join-split sep (c ∷ s) = ground (
  arith,
  join-split sep s,
  join-nil_cons sep (split sep s) (split-ne-nil sep s),
  join-push_first sep c (split sep s) (split-ne-nil sep s),
)

-- A part that does not hold the separator is split off whole.
pub split-append :
    (sep : ℕ) (s t : Bytes) → has_byte sep s ≡ false → split sep (s ++ (sep ∷ t)) ≡ s ∷ split sep t
unfolding split has_byte
split-append sep [] t h = ground (arith, ==_iff sep sep)
split-append sep (c ∷ s) t h = ground (arith, split-append sep s t)

pub has_byte-append : (b : ℕ) (s t : Bytes) → has_byte b (s ++ t) ≡ (has_byte b s || has_byte b t)
unfolding has_byte
has_byte-append b [] t = refl
has_byte-append b (c ∷ s) t = ground (arith, has_byte-append b s t)

-- ===== src/Ebpf/Supervisor/Sameness.antt =====
-- About sameTargets (internal/ebpf/supervisor.go): when two sets count as the same.
use apm2go.Base.{
  ◌+◌, ◌≤◌, List, [], ◌∷◌, Bool, true, false, if◌then◌else◌, length, map, all, ◌≡◌, refl, ap, ◌∙◌,
  arith, Bool-cases, inl, inr,
}
use apm2go.Base.Eq.{Bytes, bytes_eq, bytes_eq_iff, text_eq}
use apm2go.Base.Dict.{contains, remove, contains-remove}
use apm2go.Ebpf.Targets.{Target}
use apm2go.Ebpf.Supervisor.{target_key, same_keys, same_targets}

-- No key stands twice.
abbrev pub NoRepeat : List Bytes → Type 0
NoRepeat [] = Unit
NoRepeat (k ∷ ks) = (contains k ks ≡ false) × NoRepeat ks

all-elim :
    (p : Bytes → Bool) (k : Bytes) (ks : List Bytes)
    → all p ks ≡ true
    → contains k ks ≡ true
    → p k ≡ true
unfolding contains
all-elim p k [] h c = cc
all-elim p k (j ∷ ks) h c = elim (Bool-cases (bytes_eq j k)) [
  | inl here ↦ ground (arith, h, ap p ((bytes_eq_iff j k).0 here))
  | inr there ↦ all-elim p k ks (ground (arith, h)) (ground (arith, c))
]

length-remove :
    (k : Bytes) (ks : List Bytes) → contains k ks ≡ true → length (remove k ks) + 1 ≤ length ks
unfolding contains remove
length-remove k [] h = cc
length-remove k (j ∷ ks) h = elim (Bool-cases (contains k ks)) [
  | inl later ↦ ground (arith, length-remove k ks later)
  | inr last ↦ ground (arith, length-remove_le ks)
]
  where
    length-remove_le : (xs : List Bytes) → length (remove k xs) ≤ length xs
    length-remove_le [] = omega arith
    length-remove_le (x ∷ xs) = ground (arith, length-remove_le xs)

-- A list that repeats nothing and lies in another, which holds one key more, is shorter.
shorter :
    (b a : List Bytes) (j : Bytes)
    → NoRepeat b
    → ((k : Bytes) → contains k b ≡ true → contains k a ≡ true)
    → contains j a ≡ true
    → contains j b ≡ false
    → length b + 1 ≤ length a
unfolding contains
shorter [] [] j n s c d = cc
shorter [] (x ∷ a) j n s c d = omega arith
shorter (k ∷ ks) a j n s c d = omega (
  arith,
  shorter ks (remove k a) j n.1 inside other (ground (arith, d)),
  length-remove k a (s k here),
)
  where
    here : contains k (k ∷ ks) ≡ true
    here = ground (arith, bytes_eq_iff k k)

    left : (i : Bytes) → bytes_eq k i ≡ false → contains i a ≡ true → contains i (remove k a) ≡ true
    left i differs e =
        contains-remove k i a ∙ ap (λ b. if b then false else contains i a) differs ∙ e

    differs : (i : Bytes) → contains i ks ≡ true → bytes_eq k i ≡ false
    differs i e = elim (Bool-cases (bytes_eq k i)) [
      | inl same ↦
          absurd (ground (arith, n.0, ap (λ x. contains x ks) ((bytes_eq_iff k i).0 same), e))
      | inr apart ↦ apart
    ]

    inside : (i : Bytes) → contains i ks ≡ true → contains i (remove k a) ≡ true
    inside i e = left i (differs i e) (s i (ground (arith, e)))

    other : contains j (remove k a) ≡ true
    other = left j (ground (arith, d)) c

same_keys-contains :
    (a b : List Bytes)
    → NoRepeat b
    → same_keys a b ≡ true
    → (k : Bytes) → contains k a ≡ contains k b
unfolding same_keys
same_keys-contains a b n h k = go (contains k a) refl (contains k b) refl
  where
    same_length : length a ≡ length b
    same_length = ground (arith, h)

    inside : all (λ j. contains j a) b ≡ true
    inside = ground (arith, h)

    go : (x : Bool) → contains k a ≡ x → (y : Bool) → contains k b ≡ y → x ≡ y
    go true e true f = refl
    go false e false f = refl
    go false e true f = absurd (ground (arith, e, all-elim (λ j. contains j a) k b inside f))
    go true e false f = absurd (
        omega (
          arith,
          same_length,
          shorter b a k n (λ j c. all-elim (λ i. contains i a) j b inside c) e f,
        ))

-- When no two targets of the new set have one key, a set that counts as unchanged has exactly the keys
-- of the old one: no target is gained or lost without a restart.
pub same_targets-contains :
    (a b : List Target)
    → NoRepeat (map target_key b)
    → same_targets a b ≡ true
    → (k : Bytes) → contains k (map target_key a) ≡ contains k (map target_key b)
unfolding same_targets
same_targets-contains a b n h = same_keys-contains (map target_key a) (map target_key b) n h

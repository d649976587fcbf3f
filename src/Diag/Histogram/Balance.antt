-- ===== src/Diag/Histogram/Balance.antt =====
-- About Diff (internal/jvmdiag/classhistogram.go): its sums.
use apm2go.Base.{
  ℕ, ◌+◌, List, [], ◌∷◌, ◌++◌, Bool, false, none, ◌≡◌, refl, ap, sym, ◌∙◌, inl, inr, arith,
  Bool-cases, any,
}
use apm2go.Base.Eq.{Bytes, text_eq, bytes_eq, bytes_eq_iff}
use apm2go.Base.Int.{pos, ◌-ℤ◌, pos_part, neg_part, -ℤ-parts}
use apm2go.Base.Dict.{
  Dict, lookup, insert, erase, lookup-insert, lookup-erase, Unique, Unique-insert,
}
use apm2go.Base.Sorting.{insert_by, sort_by}
use apm2go.Diag.Histogram.{
  ClassCount, ClassDelta, ClassHistogram, index_classes, earlier_of, later_deltas, gone_deltas,
  heaviest_gain_first, largest_loss_first, divide_one, divide, all_deltas, diff,
}

abbrev pub sum_by {ℓ} : {A : Type ℓ} → (A → ℕ) → List A → ℕ
sum_by f [] = 0
sum_by f (x ∷ xs) = f x + sum_by f xs

-- How many bytes a class gained or lost: one of them is 0.
abbrev pub gained : ClassDelta → ℕ
gained d = pos_part d.bytes_delta

abbrev pub lost : ClassDelta → ℕ
lost d = neg_part d.bytes_delta

abbrev pub sizes : List ClassCount → ℕ
sizes = sum_by (λ (c : ClassCount). c.bytes)

abbrev pub held : Dict Bytes ClassCount → ℕ
held [] = 0
held ((_, c) ∷ m) = c.bytes + held m

-- No two rows have one name.
abbrev pub DistinctNames : List ClassCount → Type 0
DistinctNames [] = Unit
DistinctNames (c ∷ cs) =
    (any (λ (d : ClassCount). bytes_eq c.name d.name) cs ≡ false) × DistinctNames cs

sum_by-append {ℓ} :
    {A : Type ℓ} (f : A → ℕ) (xs ys : List A) → sum_by f (xs ++ ys) ≡ sum_by f xs + sum_by f ys
sum_by-append f [] ys = omega arith
sum_by-append f (x ∷ xs) ys = omega (arith, sum_by-append f xs ys)

sum_by-insert_by {ℓ} :
    {A : Type ℓ} (lt : A → A → Bool) (f : A → ℕ) (x : A) (xs : List A)
    → sum_by f (insert_by lt x xs) ≡ f x + sum_by f xs
unfolding insert_by
sum_by-insert_by lt f x [] = refl
sum_by-insert_by lt f x (y ∷ ys) = ground (arith, sum_by-insert_by lt f x ys)

sum_by-sort_by {ℓ} :
    {A : Type ℓ} (lt : A → A → Bool) (f : A → ℕ) (xs : List A)
    → sum_by f (sort_by lt xs) ≡ sum_by f xs
unfolding sort_by
sum_by-sort_by lt f [] = refl
sum_by-sort_by lt f (x ∷ xs) =
    sum_by-insert_by lt f x (sort_by lt xs) ∙ ap (λ n. f x + n) (sum_by-sort_by lt f xs)

held-insert :
    (c : ClassCount) (m : Dict Bytes ClassCount)
    → lookup c.name m ≡ none
    → held (insert c.name c m) ≡ held m + c.bytes
unfolding insert lookup
held-insert c [] h = omega arith
held-insert c ((k, d) ∷ m) h = ground (arith, held-insert c m)

held-erase-none :
    (k : Bytes) (m : Dict Bytes ClassCount) → lookup k m ≡ none → held (erase k m) ≡ held m
unfolding erase lookup
held-erase-none k [] h = refl
held-erase-none k ((j, d) ∷ m) h = ground (arith, held-erase-none k m)

held-erase :
    (k : Bytes) (m : Dict Bytes ClassCount)
    → Unique m
    → held (erase k m) + (earlier_of k (lookup k m)).bytes ≡ held m
unfolding erase lookup
held-erase k [] u = refl
held-erase k ((j, d) ∷ m) u = elim (Bool-cases (bytes_eq j k)) [
  | inl same ↦ rw same (
      omega
        (arith, held-erase-none k m (ap (λ i. lookup i m) (sym ((bytes_eq_iff j k).0 same)) ∙ u.0)))
  | inr other ↦ rw other (omega (arith, held-erase k m u.1))
]

Unique-erase : (k : Bytes) (m : Dict Bytes ClassCount) → Unique m → Unique (erase k m)
unfolding erase
Unique-erase k [] u = tt
Unique-erase k ((j, d) ∷ m) u = elim (Bool-cases (bytes_eq j k)) [
  | inl same ↦ rw same (Unique-erase k m u.1)
  | inr other ↦ rw other (ground (arith, lookup-erase k j m, u.0), Unique-erase k m u.1)
]

pub later_deltas-balance :
    (later : List ClassCount) (before : Dict Bytes ClassCount)
    → Unique before
    → let r = later_deltas later before in
      sum_by gained r.0 + held before ≡ sum_by lost r.0 + sizes later + held r.1
unfolding later_deltas
later_deltas-balance [] before u = omega arith
later_deltas-balance (c ∷ cs) before u =
    let prev = earlier_of c.name (lookup c.name before) in
    omega (
      arith,
      later_deltas-balance cs (erase c.name before) (Unique-erase c.name before u),
      held-erase c.name before u,
      -ℤ-parts (pos c.bytes) (pos prev.bytes),
    )

gone_deltas-balance :
    (left : Dict Bytes ClassCount)
    → (sum_by lost (gone_deltas left) ≡ held left) × (sum_by gained (gone_deltas left) ≡ 0)
unfolding gone_deltas ◌-ℤ◌
gone_deltas-balance [] = (refl, refl)
gone_deltas-balance ((k, c) ∷ left) =
    let (l, g) = gone_deltas-balance left in (ground (arith, l), ground (arith, g))

-- The names of the rows are new to the dictionary.
abbrev pub AreNew : Dict Bytes ClassCount → List ClassCount → Type 0
AreNew m [] = Unit
AreNew m (c ∷ cs) = (lookup c.name m ≡ none) × AreNew m cs

AreNew-insert :
    (c : ClassCount) (m : Dict Bytes ClassCount) (cs : List ClassCount)
    → any (λ (d : ClassCount). bytes_eq c.name d.name) cs ≡ false
    → AreNew m cs
    → AreNew (insert c.name c m) cs
AreNew-insert c m [] a h = tt
AreNew-insert c m (d ∷ ds) a h = (
  ground (arith, lookup-insert c.name d.name c m, a, h.0),
  AreNew-insert c m ds (ground (arith, a)) h.1,
)

pub index_classes-held :
    (cs : List ClassCount) (m : Dict Bytes ClassCount)
    → DistinctNames cs
    → AreNew m cs
    → held (index_classes cs m) ≡ held m + sizes cs
unfolding index_classes
index_classes-held [] m d h = omega arith
index_classes-held (c ∷ cs) m d h = omega (
  arith,
  index_classes-held cs (insert c.name c m) d.1 (AreNew-insert c m cs d.0 h.1),
  held-insert c m h.0,
)

pub index_classes-Unique :
    (cs : List ClassCount) (m : Dict Bytes ClassCount) → Unique m → Unique (index_classes cs m)
unfolding index_classes
index_classes-Unique [] m u = u
index_classes-Unique (c ∷ cs) m u =
    index_classes-Unique cs (insert c.name c m) (Unique-insert c.name c m u)

pub AreNew-nil : (cs : List ClassCount) → AreNew [] cs
unfolding lookup
AreNew-nil [] = tt
AreNew-nil (c ∷ cs) = (refl, AreNew-nil cs)

pub all_deltas-balance :
    (earlier later : List ClassCount)
    → DistinctNames earlier
    → sum_by gained (all_deltas earlier later) + sizes earlier
      ≡ sum_by lost (all_deltas earlier later) + sizes later
all_deltas-balance earlier later d =
    let before = index_classes earlier [] in
    let r = later_deltas later before in
    let (l, g) = gone_deltas-balance r.1 in
    omega (
      arith,
      later_deltas-balance later before (index_classes-Unique earlier [] tt),
      index_classes-held earlier [] d (AreNew-nil earlier),
      sum_by-append gained r.0 (gone_deltas r.1),
      sum_by-append lost r.0 (gone_deltas r.1),
      l,
      g,
    )

divide_one-sums :
    (d : ClassDelta) (acc : List ClassDelta × List ClassDelta)
    → (sum_by gained (divide_one 0 d acc).0 ≡ sum_by gained acc.0 + gained d)
      × (sum_by lost (divide_one 0 d acc).1 ≡ sum_by lost acc.1 + lost d)
divide_one-sums d (growth, shrink) =
    ground (arith, sum_by-append gained growth (d ∷ []), sum_by-append lost shrink (d ∷ []))

pub divide-sums :
    (ds : List ClassDelta) (acc : List ClassDelta × List ClassDelta)
    → (sum_by gained (divide 0 ds acc).0 ≡ sum_by gained acc.0 + sum_by gained ds)
      × (sum_by lost (divide 0 ds acc).1 ≡ sum_by lost acc.1 + sum_by lost ds)
unfolding divide
divide-sums [] acc = (omega arith, omega arith)
divide-sums (d ∷ ds) acc =
    let (g, l) = divide-sums ds (divide_one 0 d acc) in
    let (g', l') = divide_one-sums d acc in (omega (arith, g, g'), omega (arith, l, l'))

-- Without a limit the classes that grew and those that shrank account for the whole difference: the
-- bytes that the former gained and the earlier rows' bytes are together as many as the bytes that the
-- latter lost and the later rows' bytes. The condition is that the earlier dump has no two rows with
-- one name.
pub diff-balance :
    (earlier later : ClassHistogram)
    → DistinctNames earlier.classes
    → sum_by gained (diff earlier later 0).growth + sizes earlier.classes
      ≡ sum_by lost (diff earlier later 0).shrink + sizes later.classes
unfolding diff
diff-balance earlier later d =
    let ds = all_deltas earlier.classes later.classes in
    let sorted = sort_by heaviest_gain_first ds in
    let (g, l) = divide-sums sorted ([], []) in
    omega (
      arith,
      g,
      l,
      sum_by-sort_by heaviest_gain_first gained ds,
      sum_by-sort_by heaviest_gain_first lost ds,
      sum_by-sort_by largest_loss_first lost (divide 0 sorted ([], [])).1,
      all_deltas-balance earlier.classes later.classes d,
    )

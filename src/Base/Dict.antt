-- ===== src/Base/Dict.antt =====
-- Go's `map[K]V` as an association list with at most one pair to a key. The order of the pairs is
-- the order of a `range`, which Go leaves open: no statement depends on it.
use Prim.Native.Nat.{◌+◌, ◌≤◌}
use mathlib.Core.Path.{◌≡◌, refl}
use mathlib.Core.Logic.{inl, inr}
use mathlib.Core.Bool.{Bool, false, ◌||◌}
use mathlib.Core.Option.{Option, none, some}
use mathlib.Core.List.{List, [], ◌∷◌, ◌++◌}
use native.Mathlib.Omega.{arith}
use apm2go.Base.Tests.{if◌then◌else◌, Bool-cases}
use apm2go.Base.Lists.{length}
use apm2go.Base.Eq.{Eq, ◌=?◌}

abbrev pub Dict {ℓ κ} : Type ℓ → Type κ → Type (ℓ ⊔ κ)
Dict K V = List (K × V)

module _ {ℓ κ} {K : Type ℓ} {V : Type κ} ⦃e : Eq K⦄ where
  -- v, ok := m[k]
  unfoldable pub lookup : K → Dict K V → Option V
  lookup k [] = none
  lookup k ((j, v) ∷ m) = if j =? k then some v else lookup k m

  -- m[k] = v
  unfoldable pub insert : K → V → Dict K V → Dict K V
  insert k v [] = (k, v) ∷ []
  insert k v ((j, w) ∷ m) = if j =? k then (k, v) ∷ m else (j, w) ∷ insert k v m

  -- delete(m, k)
  unfoldable pub erase : K → Dict K V → Dict K V
  erase k [] = []
  erase k ((j, v) ∷ m) = let rest = erase k m in if j =? k then rest else (j, v) ∷ rest

  pub lookup-insert :
      (k j : K) (v : V) (m : Dict K V)
      → lookup j (insert k v m) ≡ (if k =? j then some v else lookup j m)
  unfolding lookup insert
  lookup-insert k j v [] = refl
  lookup-insert k j v ((i, w) ∷ m) =
      ground (arith, e.beq_iff k j, e.beq_iff i k, e.beq_iff i j, lookup-insert k j v m)

  pub lookup-erase :
      (k j : K) (m : Dict K V) → lookup j (erase k m) ≡ (if k =? j then none else lookup j m)
  unfolding lookup erase
  lookup-erase k j [] = ground arith
  lookup-erase k j ((i, w) ∷ m) =
      ground (arith, e.beq_iff k j, e.beq_iff i k, e.beq_iff i j, lookup-erase k j m)

  pub length-insert :
      (k : K) (v : V) (m : Dict K V)
      → length (insert k v m) ≡ (elim (lookup k m) [ none ↦ length m + 1 | some _ ↦ length m ])
  unfolding lookup insert
  length-insert k v [] = refl
  length-insert k v ((i, w) ∷ m) = ground (arith, length-insert k v m)

  pub length-erase-le : (k : K) (m : Dict K V) → length (erase k m) ≤ length m
  unfolding erase
  length-erase-le k [] = omega arith
  length-erase-le k ((i, w) ∷ m) = ground (arith, length-erase-le k m)

-- No key has two pairs. `insert` keeps this, so it holds of every dictionary that the code builds.
module _ {ℓ κ} {K : Type ℓ} {V : Type κ} ⦃e : Eq K⦄ where
  abbrev pub Unique : Dict K V → Type κ
  Unique [] = Unit
  Unique ((k, v) ∷ m) = (lookup k m ≡ none) × Unique m

  pub Unique-insert : (k : K) (v : V) (m : Dict K V) → Unique m → Unique (insert k v m)
  unfolding lookup insert
  Unique-insert k v [] u = (refl, tt)
  Unique-insert k v ((j, w) ∷ m) u = elim (Bool-cases (j =? k)) [
    | inl same ↦ rw same (ground (arith, u.0, (e.beq_iff j k).0 same), u.1)
    | inr other ↦ rw other (
      ground (arith, lookup-insert k j v m, e.beq_iff j k, e.beq_iff k j, u.0),
      Unique-insert k v m u.1,
    )
  ]

-- A set of keys: Go's `map[K]struct{}`, `map[K]bool` or `sync.Map` without values.
module _ {ℓ} {K : Type ℓ} ⦃e : Eq K⦄ where
  unfoldable pub contains : K → List K → Bool
  contains k [] = false
  contains k (j ∷ s) = j =? k || contains k s

  unfoldable pub add : K → List K → List K
  unfolding contains
  add k s = if contains k s then s else k ∷ s

  unfoldable pub remove : K → List K → List K
  remove k [] = []
  remove k (j ∷ s) = let rest = remove k s in if j =? k then rest else j ∷ rest

  pub contains-add : (k j : K) (s : List K) → contains j (add k s) ≡ (k =? j || contains j s)
  unfolding add
  contains-add k j s = elim (Bool-cases (contains k s)) [
    | inl old ↦ ground (arith, e.beq_iff k j)
    | inr new ↦ ground (arith, e.beq_iff k j)
  ]

  pub contains-remove :
      (k j : K) (s : List K) → contains j (remove k s) ≡ (if k =? j then false else contains j s)
  unfolding contains remove
  contains-remove k j [] = ground arith
  contains-remove k j (i ∷ s) =
      ground (arith, e.beq_iff k j, e.beq_iff i k, e.beq_iff i j, contains-remove k j s)

  pub length-add :
      (k : K) (s : List K) → length (add k s) ≡ (if contains k s then length s else length s + 1)
  unfolding add
  length-add k s = ground arith

  pub contains-append :
      (k : K) (s t : List K) → contains k (s ++ t) ≡ (contains k s || contains k t)
  unfolding contains
  contains-append k [] t = refl
  contains-append k (j ∷ s) t = ground (arith, contains-append k s t)

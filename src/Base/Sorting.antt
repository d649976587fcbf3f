-- ===== src/Base/Sorting.antt =====
-- Sorting by a strict order, for Go's `sort.Slice`, `sort.Strings` and `sort.Ints`.
use Prim.Native.Nat.{suc}
use mathlib.Core.Path.{◌≡◌, refl, ap, sym, subst, ◌∙◌}
use mathlib.Core.Logic.{inl, inr}
use mathlib.Core.Bool.{Bool, true, false, ◌||◌, ◌&&◌}
use mathlib.Core.List.{List, [], ◌∷◌, ◌++◌, append-nil}
use native.Mathlib.Omega.{arith}
use apm2go.Base.Tests.{ltb, ◌==◌, if◌then◌else◌, Bool-cases}
use apm2go.Base.Lists.{length, any, All}
use apm2go.Base.Eq.{Bytes}

-- The bytewise order of strings.
unfoldable pub bytes_lt : Bytes → Bytes → Bool
bytes_lt [] [] = false
bytes_lt [] (b ∷ t) = true
bytes_lt (a ∷ s) [] = false
bytes_lt (a ∷ s) (b ∷ t) = ltb a b || (a == b && bytes_lt s t)

module _ {ℓ} {A : Type ℓ} (lt : A → A → Bool) where
  unfoldable pub insert_by : A → List A → List A
  insert_by x [] = x ∷ []
  insert_by x (y ∷ ys) = let later = insert_by x ys in if lt y x then y ∷ later else x ∷ y ∷ ys

  unfoldable pub sort_by : List A → List A
  unfolding insert_by
  sort_by [] = []
  sort_by (x ∷ xs) = insert_by x (sort_by xs)

  -- No element is before the one that it stands behind.
  abbrev pub IsOrdered : List A → Type 0
  IsOrdered [] = Unit
  IsOrdered (x ∷ []) = Unit
  IsOrdered (x ∷ y ∷ ys) = (lt y x ≡ false) × IsOrdered (y ∷ ys)

  pub record IsOrder : Type ℓ where
    pub asym : (a b : A) → lt a b ≡ true → lt b a ≡ false
    pub trans : (a b c : A) → lt a b ≡ true → lt b c ≡ true → lt a c ≡ true
    pub total : (a b : A) → lt a b ≡ false → lt b a ≡ false → a ≡ b

  length-insert_by : (x : A) (xs : List A) → length (insert_by x xs) ≡ suc (length xs)
  unfolding insert_by
  length-insert_by x [] = refl
  length-insert_by x (y ∷ ys) = ground (arith, length-insert_by x ys)

  pub length-sort_by : (xs : List A) → length (sort_by xs) ≡ length xs
  unfolding sort_by
  length-sort_by [] = refl
  length-sort_by (x ∷ xs) = length-insert_by x (sort_by xs) ∙ ap suc (length-sort_by xs)

  pub any-insert_by :
      (p : A → Bool) (x : A) (xs : List A) → any p (insert_by x xs) ≡ (p x || any p xs)
  unfolding insert_by
  any-insert_by p x [] = refl
  any-insert_by p x (y ∷ ys) = ground (arith, any-insert_by p x ys)

  -- Sorting keeps the elements.
  pub any-sort_by : (p : A → Bool) (xs : List A) → any p (sort_by xs) ≡ any p xs
  unfolding sort_by
  any-sort_by p [] = refl
  any-sort_by p (x ∷ xs) = any-insert_by p x (sort_by xs) ∙ ap (λ b. p x || b) (any-sort_by p xs)

  pub All-insert_by :
      (P : A → Type 0) (x : A) (xs : List A) → P x → All P xs → All P (insert_by x xs)
  unfolding insert_by
  All-insert_by P x [] p h = (p, tt)
  All-insert_by P x (y ∷ ys) p h = elim (Bool-cases (lt y x)) [
    | inl before ↦ rw before (h.0, All-insert_by P x ys p h.1)
    | inr behind ↦ rw behind (p, h)
  ]

  pub All-sort_by : (P : A → Type 0) (xs : List A) → All P xs → All P (sort_by xs)
  unfolding sort_by
  All-sort_by P [] h = tt
  All-sort_by P (x ∷ xs) h = All-insert_by P x (sort_by xs) h.0 (All-sort_by P xs h.1)

  alone : (x : A) → insert_by x [] ≡ x ∷ []
  unfolding insert_by
  alone x = refl

  past : (x y : A) (ys : List A) → lt y x ≡ true → insert_by x (y ∷ ys) ≡ y ∷ insert_by x ys
  unfolding insert_by
  past x y ys h = rw h refl

  stop : (x y : A) (ys : List A) → lt y x ≡ false → insert_by x (y ∷ ys) ≡ x ∷ y ∷ ys
  unfolding insert_by
  stop x y ys h = rw h refl

  module _ (order : IsOrder) where
    insert_by-swap :
        (x y : A) (xs : List A) → insert_by x (insert_by y xs) ≡ insert_by y (insert_by x xs)
    insert_by-swap x y [] = ground (
      arith,
      alone x,
      alone y,
      past x y [],
      past y x [],
      stop x y [],
      stop y x [],
      order.asym x y,
      order.total x y,
    )
    insert_by-swap x y (z ∷ zs) = ground (
      arith,
      past x z zs,
      past y z zs,
      stop x z zs,
      stop y z zs,
      past x z (insert_by y zs),
      past y z (insert_by x zs),
      stop x z (insert_by y zs),
      stop y z (insert_by x zs),
      past x y (z ∷ zs),
      past y x (z ∷ zs),
      stop x y (z ∷ zs),
      stop y x (z ∷ zs),
      order.asym x y,
      order.total x y,
      order.asym x z,
      order.asym y z,
      order.trans x y z,
      order.trans z x y,
      order.trans y x z,
      order.trans z y x,
      order.trans x z y,
      order.trans y z x,
      order.total x z,
      order.total y z,
      insert_by-swap x y zs,
    )

    sort_by-middle :
        (x : A) (xs ys : List A) → sort_by (xs ++ x ∷ ys) ≡ insert_by x (sort_by (xs ++ ys))
    unfolding sort_by
    sort_by-middle x [] ys = refl
    sort_by-middle x (y ∷ xs) ys =
        ap (insert_by y) (sort_by-middle x xs ys) ∙ insert_by-swap y x (sort_by (xs ++ ys))

    -- Where a list is cut and turned round makes no difference to a total order.
    pub sort_by-rotate : (xs ys : List A) → sort_by (xs ++ ys) ≡ sort_by (ys ++ xs)
    unfolding sort_by
    sort_by-rotate [] ys = ap sort_by (sym (append-nil ys))
    sort_by-rotate (x ∷ xs) ys =
        ap (insert_by x) (sort_by-rotate xs ys) ∙ sym (sort_by-middle x ys xs)

  module _ (asym : (a b : A) → lt a b ≡ true → lt b a ≡ false) where
    IsOrdered-insert_by : (x : A) (xs : List A) → IsOrdered xs → IsOrdered (insert_by x xs)
    IsOrdered-insert_by x [] h = subst IsOrdered (sym (alone x)) tt
    IsOrdered-insert_by x (y ∷ ys) h = elim (Bool-cases (lt y x)) [
      | inl before ↦ subst IsOrdered (sym (past x y ys before)) (behind_first y x ys h before)
      | inr behind ↦ subst IsOrdered (sym (stop x y ys behind)) (behind, h)
    ]
      where
        behind_first :
            (y x : A) (ys : List A)
            → IsOrdered (y ∷ ys)
            → lt y x ≡ true
            → IsOrdered (y ∷ insert_by x ys)
        behind_first y x [] h b = subst (λ l. IsOrdered (y ∷ l)) (sym (alone x)) (asym y x b, tt)
        behind_first y x (z ∷ zs) h b = elim (Bool-cases (lt z x)) [
          | inl before ↦
              subst (λ l. IsOrdered (y ∷ l)) (sym (past x z zs before))
                (h.0, behind_first z x zs h.1 before)
          | inr behind ↦
              subst (λ l. IsOrdered (y ∷ l)) (sym (stop x z zs behind)) (asym y x b, (behind, h.1))
        ]

    pub IsOrdered-sort_by : (xs : List A) → IsOrdered (sort_by xs)
    unfolding sort_by
    IsOrdered-sort_by [] = tt
    IsOrdered-sort_by (x ∷ xs) = IsOrdered-insert_by x (sort_by xs) (IsOrdered-sort_by xs)

bytes_lt-asym : (a b : Bytes) → bytes_lt a b ≡ true → bytes_lt b a ≡ false
unfolding bytes_lt
bytes_lt-asym [] [] h = refl
bytes_lt-asym [] (y ∷ b) h = refl
bytes_lt-asym (x ∷ a) [] h = cc
bytes_lt-asym (x ∷ a) (y ∷ b) h = ground (arith, bytes_lt-asym a b)

bytes_lt_trans : (a b c : Bytes) → bytes_lt a b ≡ true → bytes_lt b c ≡ true → bytes_lt a c ≡ true
unfolding bytes_lt
bytes_lt_trans [] [] c h k = cc
bytes_lt_trans [] (y ∷ b) [] h k = cc
bytes_lt_trans [] (y ∷ b) (z ∷ c) h k = refl
bytes_lt_trans (x ∷ a) [] c h k = cc
bytes_lt_trans (x ∷ a) (y ∷ b) [] h k = cc
bytes_lt_trans (x ∷ a) (y ∷ b) (z ∷ c) h k = ground (arith, bytes_lt_trans a b c)

bytes_lt-total : (a b : Bytes) → bytes_lt a b ≡ false → bytes_lt b a ≡ false → a ≡ b
unfolding bytes_lt
bytes_lt-total [] [] h k = refl
bytes_lt-total [] (y ∷ b) h k = cc
bytes_lt-total (x ∷ a) [] h k = cc
bytes_lt-total (x ∷ a) (y ∷ b) h k = ground (arith, bytes_lt-total a b)

pub bytes_lt-IsOrder : IsOrder bytes_lt
bytes_lt-IsOrder = record { asym = bytes_lt-asym; trans = bytes_lt_trans; total = bytes_lt-total }

-- ===== src/Discovery/Naming/Decimal.antt =====
-- The digits of a pid, read back.
use apm2go.Base.{
  ℕ, zero, suc, ◌+◌, ◌-◌, ◌*◌, ◌/◌, ◌%◌, ◌<◌, [], ◌∷◌, ◌++◌, ltb, ◌≡◌, refl, ◌∙◌, arith, inl, inr,
  Bool-cases,
}
use apm2go.Base.Eq.{Bytes}
use apm2go.Discovery.Naming.{decimal}

-- What digits stand for, behind those that were read.
abbrev pub value_from : ℕ → Bytes → ℕ
value_from a [] = a
value_from a (c ∷ s) = value_from (a * 10 + (c - 48)) s

value_from-append :
    (a : ℕ) (xs : Bytes) (c : ℕ) → value_from a (xs ++ c ∷ []) ≡ value_from a xs * 10 + (c - 48)
value_from-append a [] c = refl
value_from-append a (x ∷ xs) c = value_from-append (a * 10 + (x - 48)) xs c

-- The digits that are written for a number read back as that number, on any fuel above it.
pub decimal_round_trip : (fuel n : ℕ) → n < fuel → value_from 0 (decimal fuel n) ≡ n
unfolding decimal
decimal_round_trip zero n h = absurd (omega (arith, h))
decimal_round_trip (suc fuel) n h = elim (Bool-cases (ltb n 10)) [
  | inl small ↦ rw (small, decimal) (omega arith)
  | inr large ↦
      rw (large, decimal)
        (value_from-append 0 (decimal fuel (n / 10)) (48 + n % 10)
          ∙ ground (arith, decimal_round_trip fuel (n / 10), h))
]

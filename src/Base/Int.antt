-- ===== src/Base/Int.antt =====
-- Go's `int` where the source counts below 0, over the native numbers and without a bound: each use
-- says why the numbers fit.
use Prim.Native.Nat.{ℕ, suc, ◌+◌, ◌-◌}
use mathlib.Core.Path.{◌≡◌}
use mathlib.Core.Logic.{◌↔◌}
use mathlib.Core.Bool.{Bool, true}
use native.Mathlib.Omega.{arith}
use apm2go.Base.Tests.{ltb, leb, ◌==◌, if◌then◌else◌}
use apm2go.Base.Eq.{Eq}

-- `negsuc n` is -(n + 1).
pub data ℤ : Type 0 where
  pos : ℕ → ℤ
  negsuc : ℕ → ℤ

abbrev pub pos_part : ℤ → ℕ
pos_part (pos n) = n
pos_part (negsuc n) = 0

abbrev pub neg_part : ℤ → ℕ
neg_part (pos n) = 0
neg_part (negsuc n) = suc n

-- a - b, as an integer.
abbrev pub sub_ℕ : ℕ → ℕ → ℤ
sub_ℕ a b = if leb b a then pos (a - b) else negsuc (b - a - 1)

infixl 65 ◌+ℤ◌ ◌-ℤ◌
unfoldable pub ◌+ℤ◌ : ℤ → ℤ → ℤ
a +ℤ b = sub_ℕ (pos_part a + pos_part b) (neg_part a + neg_part b)

unfoldable pub ◌-ℤ◌ : ℤ → ℤ → ℤ
a -ℤ b = sub_ℕ (pos_part a + neg_part b) (neg_part a + pos_part b)

abbrev pub ltb_ℤ : ℤ → ℤ → Bool
ltb_ℤ a b = ltb (pos_part a + neg_part b) (pos_part b + neg_part a)

-- Two integers are equal when their differences from 0 are.
pub ℤ-ext : (a b : ℤ) → pos_part a + neg_part b ≡ pos_part b + neg_part a → a ≡ b
ℤ-ext a b h = ground arith

pub +ℤ-parts :
    (a b : ℤ)
    → pos_part (a +ℤ b) + (neg_part a + neg_part b) ≡ neg_part (a +ℤ b) + (pos_part a + pos_part b)
unfolding ◌+ℤ◌
+ℤ-parts a b = ground arith

pub -ℤ-parts :
    (a b : ℤ)
    → pos_part (a -ℤ b) + (neg_part a + pos_part b) ≡ neg_part (a -ℤ b) + (pos_part a + neg_part b)
unfolding ◌-ℤ◌
-ℤ-parts a b = ground arith

pub ℤ_beq_iff : (a b : ℤ) → ((pos_part a + neg_part b == pos_part b + neg_part a) ≡ true) ↔ (a ≡ b)
ℤ_beq_iff a b = ground arith

instance abbrev pub ℤ_eq : Eq ℤ
ℤ_eq = record {
  beq = λ a b. pos_part a + neg_part b == pos_part b + neg_part a;
  beq_iff = ℤ_beq_iff;
}

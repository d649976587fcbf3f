-- ===== src/Base/Eq.antt =====
-- Equality tests of keys, as an interface: numbers and byte strings implement it.
use Prim.Native.Nat.{ℕ}
use Prim.Native.Char.{code}
use Prim.Native.String.{String}
use mathlib.Core.Path.{◌≡◌, refl}
use mathlib.Core.Logic.{◌↔◌}
use mathlib.Core.Bool.{Bool, true, false, ◌&&◌}
use mathlib.Core.List.{List, [], ◌∷◌}
use native.Mathlib.Omega.{arith}
use apm2go.Base.Tests
use apm2go.Base.Tests.{==_iff}

pub record Eq {ℓ} (A : Type ℓ) : Type ℓ where
  pub beq : A → A → Bool
  pub beq_iff : (a b : A) → (beq a b ≡ true) ↔ (a ≡ b)

-- `==` of the source at the type of a key.
infix 50 ◌=?◌
abbrev pub ◌=?◌ {ℓ} : {A : Type ℓ} ⦃e : Eq A⦄ → A → A → Bool
◌=?◌ ⦃e⦄ = e.beq

-- A Go string is a sequence of bytes.
abbrev pub Bytes : Type 0
Bytes = List ℕ

-- The bytes of an ASCII literal.
abbrev pub codes : String → Bytes
codes String.[] = []
codes (String.◌∷◌ c s) = code c ∷ codes s

unfoldable pub bytes_eq : Bytes → Bytes → Bool
bytes_eq [] [] = true
bytes_eq (a ∷ s) (b ∷ t) = Tests.◌==◌ a b && bytes_eq s t
bytes_eq s t = false

pub bytes_eq_iff : (s t : Bytes) → (bytes_eq s t ≡ true) ↔ (s ≡ t)
unfolding bytes_eq
bytes_eq_iff [] [] = (λ h. refl, λ h. refl)
bytes_eq_iff (a ∷ s) [] = (λ h. cc, λ h. cc)
bytes_eq_iff [] (b ∷ t) = (λ h. cc, λ h. cc)
bytes_eq_iff (a ∷ s) (b ∷ t) =
    (λ h. ground (arith, bytes_eq_iff s t), λ h. ground (arith, bytes_eq_iff s t))

abbrev pub nat_beq : ℕ → ℕ → Bool
nat_beq = Tests.◌==◌

instance abbrev pub nat_eq : Eq ℕ
nat_eq = record { beq = nat_beq; beq_iff = ==_iff }

instance abbrev pub text_eq : Eq Bytes
text_eq = record { beq = bytes_eq; beq_iff = bytes_eq_iff }

pub bytes_eq_refl : (s : Bytes) → bytes_eq s s ≡ true
bytes_eq_refl s = (bytes_eq_iff s s).1 refl

-- ===== src/Diag/Deadlock/Complete.antt =====
-- About inferDeadlocks (internal/jvmdiag/threaddump.go): which cycles its outer loop reports.
use apm2go.Base.{ℕ, ◌<◌, List, ◌++◌, Option, some, ◌≡◌}
use apm2go.Base.Eq.{nat_eq}
use apm2go.Diag.Deadlock.{done, Marks}
use apm2go.Diag.Deadlock.Closure.{Swept}

module _ (succ : ℕ → Option ℕ) (bound : ℕ) (within : (n m : ℕ) → succ n ≡ some m → m < bound) where
  -- What a turn of the outer loop does.
  abbrev Turn : ℕ → Marks → List (List ℕ) → Marks × List (List ℕ) → Type 0
  Turn start mark acc r =
      Swept succ r.0 (acc ++ r.1) × (r.0 start ≡ done) × ((k : ℕ) → mark k ≡ done → r.0 k ≡ done)

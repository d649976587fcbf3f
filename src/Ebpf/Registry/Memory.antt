-- ===== src/Ebpf/Registry/Memory.antt =====
-- About Registry (internal/ebpf/registry.go): what it remembers, and how much.
use apm2go.Base.{ℕ, ◌≤◌, List, [], ◌∷◌, true, length, some, ◌≡◌}
use apm2go.Base.Eq.{Bytes, text_eq}
use apm2go.Base.Dict.{Dict, lookup}
use apm2go.Ebpf.Targets.{Target}
use apm2go.Ebpf.Registry.{RuntimeRegistry, is_noted, set_targets}

abbrev pub IsBounded : RuntimeRegistry → Type 0
IsBounded r = (length r.since ≤ 4096) × (length r.runtimes ≤ 4096)

-- What a registry has that another one has kept.
pub record IsKept (r s : RuntimeRegistry) : Type 0 where
  pub bounded : IsBounded s
  pub first_seen_kept : (k : Bytes) (t : ℕ) → lookup k r.since ≡ some t → lookup k s.since ≡ some t
  pub runtime_kept :
      (k : Bytes) → is_noted (lookup k r.runtimes) ≡ true → is_noted (lookup k s.runtimes) ≡ true

-- The scans of a discoverer, each at its time, in order.
abbrev pub run_scans : List (ℕ × List Target) → RuntimeRegistry → RuntimeRegistry
run_scans [] r = r
run_scans ((now, targets) ∷ scans) r = run_scans scans (set_targets now targets r)

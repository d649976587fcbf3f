-- ===== src/Pipeline/Guard.antt =====
-- internal/pipeline/limits.go: the cardinality guard. `admit` looks under the read lock and writes
-- under the write lock; other goroutines may run in between, so the two halves are also steps.
pub mod Budget
pub mod Names
use apm2go.Base.{
  ℕ, List, [], ◌∷◌, ◌++◌, Bool, true, false, not, ◌&&◌, if◌then◌else◌, ltb, leb, ◌==◌, length,
  is_empty,
}
use apm2go.Base.Eq.{Bytes, codes, text_eq, bytes_eq}
use apm2go.Base.Dict.{contains, add}

abbrev pub overflow_label : Bytes
overflow_label = codes "__other__"

pub record Guard : Type 0 where
  pub max_services : ℕ
  pub max_operations : ℕ
  pub services : List Bytes
  pub operations : List Bytes

unfoldable pub new_cardinality_guard : ℕ → ℕ → Guard
new_cardinality_guard max_services max_operations = record {
  max_services = max_services;
  max_operations = max_operations;
  services = [];
  operations = [];
}

-- What follows the first NUL byte, or the whole key.
unfoldable pub after_nul : Bytes → Bytes → Bytes
after_nul whole [] = whole
after_nul whole (c ∷ s) = let rest = after_nul whole s in if c == 0 then s else rest

unfoldable pub trim_service_prefix : Bytes → Bytes
unfolding after_nul
trim_service_prefix key = after_nul key key

-- max > 0 && len(set) >= max
abbrev pub is_full : ℕ → List Bytes → Bool
is_full max set = ltb 0 max && leb max (length set)

-- The half of `admit` under the write lock.
unfoldable pub admit_write : List Bytes → Bytes → ℕ → List Bytes × Bytes
admit_write set key max =
    if is_full max set && not (contains key set)
    then (set, overflow_label)
    else (add key set, trim_service_prefix key)

unfoldable pub admit : List Bytes → Bytes → ℕ → List Bytes × Bytes
admit set key max =
    if contains key set
    then (set, trim_service_prefix key)
    else if is_full max set
    then (set, overflow_label)
    else admit_write set key max

unfoldable pub service : Bytes → Guard → Guard × Bytes
service name g =
    if is_empty name
    then (g, overflow_label)
    else (let (set, label) = admit g.services name g.max_services in
        (record g { services = set }, label))

abbrev pub operation_key : Bytes → Bytes → Bytes
operation_key svc name = svc ++ (0 ∷ name)

unfoldable pub operation : Bytes → Bytes → Guard → Guard × Bytes
operation svc name g =
    if is_empty name
    then (g, overflow_label)
    else (let (set, label) = admit g.operations (operation_key svc name) g.max_operations in
        (
          record g { operations = set },
          if bytes_eq label overflow_label then overflow_label else name,
        ))

unfoldable pub counts : Guard → ℕ × ℕ
counts g = (length g.services, length g.operations)

-- What the receiver's goroutines do to a guard, in any order: whole calls, and late writes of a call
-- that looked at an earlier set.
pub data Step : Type 0 where
  call_service : Bytes → Step
  call_operation : Bytes → Bytes → Step
  write_service : Bytes → Step
  write_operation : Bytes → Bytes → Step

unfoldable pub step : Step → Guard → Guard
step (call_service name) g = (service name g).0
step (call_operation svc name) g = (operation svc name g).0
step (write_service name) g = record g { services = (admit_write g.services name g.max_services).0 }
step (write_operation svc name) g = record g {
  operations = (admit_write g.operations (operation_key svc name) g.max_operations).0;
}

unfoldable pub run : List Step → Guard → Guard
run [] g = g
run (s ∷ ss) g = run ss (step s g)

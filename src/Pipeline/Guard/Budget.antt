-- ===== src/Pipeline/Guard/Budget.antt =====
-- The ceilings hold however the goroutines interleave, and admission is stable.
use apm2go.Base.{
  ℕ, ◌≤◌, ◌<◌, List, [], ◌∷◌, true, false, if◌then◌else◌, length, is_empty, ◌≡◌, refl, inl, inr,
  arith, Bool-cases,
}
use apm2go.Base.Eq.{Bytes, text_eq, bytes_eq}
use apm2go.Base.Dict.{length-add}
use apm2go.Pipeline.Guard.{
  overflow_label, Guard, new_cardinality_guard, admit_write, admit, service, operation_key,
  operation, Step, call_service, call_operation, write_service, write_operation, step, run,
}

-- A ceiling of 0 is no ceiling.
abbrev pub Within : ℕ → List Bytes → Type 0
Within max set = 0 < max → length set ≤ max

Within-write :
    (set : List Bytes) (key : Bytes) (max : ℕ)
    → Within max set
    → Within max (admit_write set key max).0
unfolding admit_write
Within-write set key max h = λ p. ground (arith, h p, length-add key set)

Within-admit :
    (set : List Bytes) (key : Bytes) (max : ℕ) → Within max set → Within max (admit set key max).0
unfolding admit
Within-admit set key max h = λ p. ground (arith, h p, Within-write set key max h p)

pub record IsWithin (g : Guard) : Type 0 where
  pub in_services : Within g.max_services g.services
  pub in_operations : Within g.max_operations g.operations

-- The two branches of each call.
pub service_empty :
    (name : Bytes) (g : Guard) → is_empty name ≡ true → service name g ≡ (g, overflow_label)
unfolding service
service_empty name g h = rw (h, service) refl

pub service_named :
    (name : Bytes) (g : Guard)
    → is_empty name ≡ false
    → let a = admit g.services name g.max_services in
      service name g ≡ (record g { services = a.0 }, a.1)
unfolding service
service_named name g h = rw (h, service) refl

pub operation_empty :
    (svc name : Bytes) (g : Guard)
    → is_empty name ≡ true
    → operation svc name g ≡ (g, overflow_label)
unfolding operation
operation_empty svc name g h = rw (h, operation) refl

pub operation_named :
    (svc name : Bytes) (g : Guard)
    → is_empty name ≡ false
    → let a = admit g.operations (operation_key svc name) g.max_operations in
      operation svc name g ≡ (
        record g { operations = a.0 },
        if bytes_eq a.1 overflow_label then overflow_label else name,
      )
unfolding operation
operation_named svc name g h = rw (h, operation) refl

IsWithin-service : (name : Bytes) (g : Guard) → IsWithin g → IsWithin (service name g).0
IsWithin-service name g w = elim (Bool-cases (is_empty name)) [
  | inl h ↦ rw (service_empty name g h) w
  | inr h ↦ rw (service_named name g h) (record {
    in_services = Within-admit g.services name g.max_services w.in_services;
    in_operations = w.in_operations;
  })
]

IsWithin-operation : (svc name : Bytes) (g : Guard) → IsWithin g → IsWithin (operation svc name g).0
IsWithin-operation svc name g w = elim (Bool-cases (is_empty name)) [
  | inl h ↦ rw (operation_empty svc name g h) w
  | inr h ↦ rw (operation_named svc name g h) (record {
    in_services = w.in_services;
    in_operations =
        Within-admit g.operations (operation_key svc name) g.max_operations w.in_operations;
  })
]

IsWithin-step : (s : Step) (g : Guard) → IsWithin g → IsWithin (step s g)
unfolding step
IsWithin-step (call_service name) g w = IsWithin-service name g w
IsWithin-step (call_operation svc name) g w = IsWithin-operation svc name g w
IsWithin-step (write_service name) g w = record {
  in_services = Within-write g.services name g.max_services w.in_services;
  in_operations = w.in_operations;
}
IsWithin-step (write_operation svc name) g w = record {
  in_services = w.in_services;
  in_operations =
      Within-write g.operations (operation_key svc name) g.max_operations w.in_operations;
}

IsWithin-run : (ss : List Step) (g : Guard) → IsWithin g → IsWithin (run ss g)
unfolding run
IsWithin-run [] g w = w
IsWithin-run (s ∷ ss) g w = IsWithin-run ss (step s g) (IsWithin-step s g w)

-- Whatever names arrive and however the two halves of the calls interleave, a new guard never holds
-- more services or operations than its positive ceilings.
pub run-IsWithin :
    (max_services max_operations : ℕ) (ss : List Step)
    → IsWithin (run ss (new_cardinality_guard max_services max_operations))
unfolding new_cardinality_guard
run-IsWithin max_services max_operations ss =
    IsWithin-run ss (new_cardinality_guard max_services max_operations)
      (record { in_services = λ p. omega arith; in_operations = λ p. omega arith })

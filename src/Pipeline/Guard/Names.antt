-- ===== src/Pipeline/Guard/Names.antt =====
-- The names that the guard hands out: an admitted name is recorded and stays itself.
use apm2go.Base.{
  ℕ, List, [], ◌∷◌, ◌++◌, true, false, if◌then◌else◌, is_empty, ◌≡◌, refl, sym, ◌∙◌, ap, ◌⊎◌, inl,
  inr, arith, Bool-cases,
}
use apm2go.Base.Eq.{Bytes, text_eq, bytes_eq, bytes_eq_iff, bytes_eq_refl}
use apm2go.Base.Dict.{contains, add, contains-add}
use apm2go.Base.Text.{has_byte}
use apm2go.Pipeline.Guard.Budget.{service_empty, service_named, operation_empty, operation_named}
use apm2go.Pipeline.Guard.{
  overflow_label, Guard, after_nul, trim_service_prefix, is_full, admit_write, admit, service,
  operation_key, operation,
}

after_nul-none : (whole s : Bytes) → has_byte 0 s ≡ false → after_nul whole s ≡ whole
unfolding after_nul has_byte
after_nul-none whole [] h = refl
after_nul-none whole (c ∷ s) h = ground (arith, after_nul-none whole s)

trim-plain : (s : Bytes) → has_byte 0 s ≡ false → trim_service_prefix s ≡ s
unfolding trim_service_prefix
trim-plain s h = after_nul-none s s h

after_nul-key :
    (whole svc name : Bytes) → has_byte 0 svc ≡ false → after_nul whole (svc ++ (0 ∷ name)) ≡ name
unfolding after_nul has_byte
after_nul-key whole [] name h = refl
after_nul-key whole (c ∷ svc) name h = ground (arith, after_nul-key whole svc name)

trim-operation_key :
    (svc name : Bytes)
    → has_byte 0 svc ≡ false
    → trim_service_prefix (operation_key svc name) ≡ name
unfolding trim_service_prefix
trim-operation_key svc name h = after_nul-key (operation_key svc name) svc name h

contains-add_self : (k : Bytes) (s : List Bytes) → contains k (add k s) ≡ true
contains-add_self k s = contains-add k k s ∙ rw (bytes_eq_refl k) refl

-- A set that has the key, or has room for it, records it and answers with the trimmed key; a full
-- one that lacks it is left alone and answers with the overflow label.
admit_cases :
    (set : List Bytes) (key : Bytes) (max : ℕ)
    → (((admit set key max).1 ≡ trim_service_prefix key)
        × (contains key (admit set key max).0 ≡ true))
      ⊎ (((admit set key max).1 ≡ overflow_label)
          × ((admit set key max).0 ≡ set)
          × (contains key set ≡ false)
          × (is_full max set ≡ true))
unfolding admit admit_write
admit_cases set key max = ground (arith, contains-add_self key set)

admit_known :
    (set : List Bytes) (key : Bytes) (max : ℕ)
    → contains key set ≡ true
    → admit set key max ≡ (set, trim_service_prefix key)
unfolding admit
admit_known set key max h = rw h refl

-- For a service name without NUL bytes: either the name itself is returned and recorded, or the
-- overflow label is returned, the guard stays as it was, and its budget of services is used up
-- without this name, or the name is empty.
pub service_label :
    (name : Bytes) (g : Guard)
    → has_byte 0 name ≡ false
    → (((service name g).1 ≡ name) × (contains name (service name g).0.services ≡ true))
      ⊎ (((service name g).1 ≡ overflow_label)
          × ((service name g).0 ≡ g)
          × ((is_empty name ≡ true)
              ⊎ ((contains name g.services ≡ false) × (is_full g.max_services g.services ≡ true))))
service_label name g plain = elim (Bool-cases (is_empty name)) [
  | inl h ↦ inr (rw (service_empty name g h) refl, rw (service_empty name g h) refl, inl h)
  | inr h ↦ elim (admit_cases g.services name g.max_services) [
    | inl (label, known) ↦ inl (
      rw (service_named name g h) (label ∙ trim-plain name plain),
      rw (service_named name g h) known,
    )
    | inr (label, same, absent, full) ↦ inr (
      rw (service_named name g h) label,
      rw (service_named name g h) (ap (λ (s : List Bytes). record g { services = s }) same),
      inr (absent, full),
    )
  ]
]

admit_again :
    (set : List Bytes) (key : Bytes) (max : ℕ)
    → admit (admit set key max).0 key max ≡ admit set key max
admit_again set key max = elim (admit_cases set key max) [
  | inl (label, known) ↦ admit_known (admit set key max).0 key max known ∙ ground (arith, label)
  | inr (label, same, absent, full) ↦ ap (λ s. admit s key max) same
]

-- Asking for a service again gives the same label and changes nothing more.
pub service_stable : (name : Bytes) (g : Guard) → service name (service name g).0 ≡ service name g
service_stable name g = elim (Bool-cases (is_empty name)) [
  | inl h ↦ ap (λ (r : Guard × Bytes). service name r.0) (service_empty name g h)
  | inr h ↦
      ap (λ (r : Guard × Bytes). service name r.0) (service_named name g h)
      ∙ service_named name (record g { services = (admit g.services name g.max_services).0 }) h
      ∙ ap
          (λ (a : List Bytes × Bytes).
            let r : Guard × Bytes = (record g { services = a.0 }, a.1) in r)
          (admit_again g.services name g.max_services)
      ∙ sym (service_named name g h)
]

admit_full :
    (set : List Bytes) (key : Bytes) (max : ℕ)
    → is_full max set ≡ true
    → contains key set ≡ false
    → admit set key max ≡ (set, overflow_label)
unfolding admit
admit_full set key max full absent = ground arith

-- The budget of operations is one for all services: once it is used up, whichever services used it,
-- a new operation of any service collapses into the overflow label.
pub operation_budget_shared :
    (svc name : Bytes) (g : Guard)
    → is_full g.max_operations g.operations ≡ true
    → contains (operation_key svc name) g.operations ≡ false
    → operation svc name g ≡ (g, overflow_label)
operation_budget_shared svc name g full absent = elim (Bool-cases (is_empty name)) [
  | inl h ↦ operation_empty svc name g h
  | inr h ↦
      operation_named svc name g h
      ∙ rw
          (
            admit_full g.operations (operation_key svc name) g.max_operations full absent,
            bytes_eq_refl overflow_label,
          )
          refl
]

-- For a service without NUL bytes in its name, an operation that is recorded already is returned as
-- itself and leaves the guard alone.
pub operation_known :
    (svc name : Bytes) (g : Guard)
    → has_byte 0 svc ≡ false
    → is_empty name ≡ false
    → contains (operation_key svc name) g.operations ≡ true
    → operation svc name g ≡ (g, name)
operation_known svc name g plain h known =
    operation_named svc name g h
    ∙ rw
        (
          admit_known g.operations (operation_key svc name) g.max_operations known,
          trim-operation_key svc name plain,
        )
        (ap (λ (n : Bytes). let r : Guard × Bytes = (g, n) in r) (same_label name))
  where
    same_label : (n : Bytes) → (if bytes_eq n overflow_label then overflow_label else n) ≡ n
    same_label n = ground (arith, bytes_eq_iff n overflow_label)

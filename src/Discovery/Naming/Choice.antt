-- ===== src/Discovery/Naming/Choice.antt =====
-- Which name a process gets, and that it gets one.
use apm2go.Base.{
  ℕ, ◌+◌, List, [], ◌∷◌, ◌++◌, Bool, true, false, ◌&&◌, if◌then◌else◌, is_empty, Option, none, some,
  All, ◌≡◌, refl, ap, ◌∙◌, arith, inl, inr, Bool-cases,
}
use apm2go.Base.Eq.{Bytes, codes, text_eq}
use apm2go.Discovery.Naming.{
  Process, Source, otel_property, spring_property, jar_file, systemd, main_class_name, fallback,
  container_service_name, container_name_source, jar_service_name, main_class_service_name,
  after_last, decimal, derive_service_name, drop_tail, property_of,
}

-- The names that a process may have, from the most to the least deliberate.
abbrev pub candidates : Process → List (Bytes × Source)
candidates p =
    (property_of p (codes "otel.service.name"), otel_property)
    ∷ (property_of p (codes "spring.application.name"), spring_property)
    ∷ (container_service_name p.container, container_name_source p.container)
    ∷ (if is_empty p.jar_path then [] else jar_service_name p.jar_path, jar_file)
    ∷ (p.systemd_unit, systemd)
    ∷ (main_class_service_name p.main_class, main_class_name)
    ∷ (codes "java-" ++ decimal (p.pid + 1) p.pid, fallback)
    ∷ []

-- The first candidate with a name.
abbrev pub first_named : Bytes × Source → List (Bytes × Source) → Bytes × Source
first_named d [] = d
first_named d (c ∷ cs) = let rest = first_named d cs in if is_empty c.0 then rest else c

named_rest :
    (c : ℕ) (s : Bytes) (o : Option Bytes)
    → is_empty (elim o [ none ↦ c ∷ s | some rest ↦ if is_empty rest then c ∷ s else rest ]) ≡ false
named_rest c s none = refl
named_rest c s (some []) = refl
named_rest c s (some (b ∷ rest)) = refl

main_class_empty : (name : Bytes) → is_empty (main_class_service_name name) ≡ is_empty name
unfolding main_class_service_name
main_class_empty [] = unfold after_last in refl
main_class_empty (c ∷ s) = named_rest c s (after_last 46 (c ∷ s))

-- The name of a process and where it came from are the first with a name among: its OpenTelemetry
-- property, its Spring property, its container, its jar file, its systemd unit, its main class, and
-- its pid.
pub derive_first_named :
    (p : Process) → derive_service_name p ≡ first_named ([], fallback) (candidates p)
unfolding derive_service_name
derive_first_named p = ground (arith, main_class_empty p.main_class)

-- Every process gets a name.
pub derive_names : (p : Process) → is_empty (derive_service_name p).0 ≡ false
derive_names p = ap (λ (c : Bytes × Source). is_empty c.0) (derive_first_named p) ∙ ground arith

-- The test of the last segment.
abbrev pub ends_in : (Bytes → Bool) → List Bytes → Bool
ends_in p [] = false
ends_in p (seg ∷ []) = p seg
ends_in p (seg ∷ next ∷ segs) = ends_in p (next ∷ segs)

-- One more segment in front of what is kept and of what is dropped.
one_more :
    (p : Bytes → Bool) (seg : Bytes) (rest tail : List Bytes)
    → All (λ s. p s ≡ true) tail
    → ends_in p rest ≡ false
    → let r = if p seg && is_empty rest then [] else seg ∷ rest in
      ((t : List Bytes) × (seg ∷ (rest ++ tail) ≡ r ++ t) × All (λ s. p s ≡ true) t)
      × (ends_in p r ≡ false)
one_more p seg [] tail h e = elim (Bool-cases (p seg)) [
  | inl passes ↦ rw passes ((seg ∷ tail, refl, (passes, h)), refl)
  | inr stays ↦ rw stays ((tail, refl, h), stays)
]
one_more p seg (x ∷ rest) tail h e = elim (Bool-cases (p seg)) [
  | inl passes ↦ rw passes ((tail, refl, h), e)
  | inr stays ↦ rw stays ((tail, refl, h), e)
]

-- The loops that trim trailing segments drop a tail whose segments all pass the test, and what they
-- keep does not end in a segment that passes it.
pub drop_tail_longest :
    (p : Bytes → Bool) (segs : List Bytes)
    → ((tail : List Bytes) × (segs ≡ drop_tail p segs ++ tail) × All (λ seg. p seg ≡ true) tail)
      × (ends_in p (drop_tail p segs) ≡ false)
unfolding drop_tail
drop_tail_longest p [] = (([], refl, tt), refl)
drop_tail_longest p (seg ∷ segs) =
    let ((tail, split_up, passing), ends) = drop_tail_longest p segs in
    let ((t, e, h), last) = one_more p seg (drop_tail p segs) tail passing ends in
    ((t, ap (λ r. seg ∷ r) split_up ∙ e, h), last)

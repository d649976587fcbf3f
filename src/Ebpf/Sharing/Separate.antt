-- ===== src/Ebpf/Sharing/Separate.antt =====
-- About dropSharedPorts and disambiguate (internal/ebpf/discoverer.go): what tells targets apart.
use apm2go.Base.{
  ℕ, suc, ◌≤◌, List, [], ◌∷◌, ◌++◌, Bool, true, false, not, ◌&&◌, if◌then◌else◌, ◌==◌, ==_iff,
  length, filter, map, is_empty, All, ◌≡◌, ◌⊎◌, inl, inr, refl, ap, sym, ◌∙◌, subst, arith,
  Bool-cases,
}
use apm2go.Base.Eq.{Bytes, codes, bytes_eq_refl}
use apm2go.Base.Int.{pos}
use apm2go.Ingest.Values.{format_int}
use apm2go.Ebpf.Targets.{Target, Runtime, first_port}
use apm2go.Ebpf.Sharing.{
  times_in, claims, distinct_ports, fewer_ports, drop_shared, drop_shared_ports, named_so, rename,
  disambiguate,
}

times-filter-le :
    (p : ℕ → Bool) (port : ℕ) (ps : List ℕ) → times_in port (filter p ps) ≤ times_in port ps
unfolding times_in
times-filter-le p port [] = omega arith
times-filter-le p port (x ∷ ps) = ground (arith, times-filter-le p port ps)

times-fewer-le :
    (all : List Target) (port : ℕ) (ps : List ℕ)
    → times_in port (fewer_ports (distinct_ports all ps) ps) ≤ times_in port ps
times-fewer-le all port ps = ground (arith, times-filter-le (λ q. claims q all == 1) port ps)

-- The pass adds no claim.
claims-drop_shared-le :
    (all : List Target) (port : ℕ) (ts : List Target)
    → claims port (drop_shared all ts) ≤ claims port ts
unfolding claims drop_shared
claims-drop_shared-le all port [] = omega arith
claims-drop_shared-le all port (t ∷ ts) =
    omega (arith, times-fewer-le all port t.ports, claims-drop_shared-le all port ts)

All-filter : (p : ℕ → Bool) (ps : List ℕ) → All (λ x. p x ≡ true) (filter p ps)
All-filter p [] = tt
All-filter p (x ∷ ps) = elim (Bool-cases (p x)) [
  | inl holds ↦
      subst (λ b. All (λ y. p y ≡ true) (if b then x ∷ filter p ps else filter p ps)) (sym holds)
        (holds, All-filter p ps)
  | inr fails ↦
      subst (λ b. All (λ y. p y ≡ true) (if b then x ∷ filter p ps else filter p ps)) (sym fails)
        (All-filter p ps)
]

length-filter-le : (p : ℕ → Bool) (ps : List ℕ) → length (filter p ps) ≤ length ps
length-filter-le p [] = omega arith
length-filter-le p (x ∷ ps) = ground (arith, length-filter-le p ps)

-- A filter that drops nothing passes everything.
All-filter_whole :
    (p : ℕ → Bool) (ps : List ℕ) → length (filter p ps) ≡ length ps → All (λ x. p x ≡ true) ps
All-filter_whole p [] h = tt
All-filter_whole p (x ∷ ps) h = elim (Bool-cases (p x)) [
  | inl holds ↦ (holds, All-filter_whole p ps (shorter (p x) holds h))
  | inr fails ↦ absurd (too_long (p x) fails h)
]
  where
    shorter :
        (b : Bool)
        → b ≡ true
        → length (if b then x ∷ filter p ps else filter p ps) ≡ suc (length ps)
        → length (filter p ps) ≡ length ps
    shorter true e k = omega (arith, k)
    shorter false e k = cc

    too_long :
        (b : Bool)
        → b ≡ false
        → length (if b then x ∷ filter p ps else filter p ps) ≡ suc (length ps)
        → ⊥
    too_long true e k = cc
    too_long false e k = omega (arith, k, length-filter-le p ps)

All-filter_none :
    (p : ℕ → Bool) (ps : List ℕ) → is_empty (filter p ps) ≡ true → All (λ x. p x ≡ false) ps
All-filter_none p [] h = tt
All-filter_none p (x ∷ ps) h = go (All-filter_none p ps) (p x) refl h
  where
    go :
        (is_empty (filter p ps) ≡ true → All (λ y. p y ≡ false) ps)
        → (b : Bool) → p x ≡ b
        → is_empty (if b then x ∷ filter p ps else filter p ps) ≡ true
        → All (λ y. p y ≡ false) (x ∷ ps)
    go rest true e k = cc
    go rest false e k = (e, rest k)

-- Either no port of a list is claimed by more than one target, or none was claimed by exactly one.
abbrev pub IsSeparate : List Target → List Target → List ℕ → Type 0
IsSeparate before after ports =
    All (λ p. claims p after ≤ 1) ports ⊎ All (λ p. (claims p before == 1) ≡ false) ports

abbrev pub IsSettled : List Target → List Target → Target → Type 0
IsSettled before after t = (is_empty t.ports ≡ false) × IsSeparate before after t.ports

All-weaken : {P Q : ℕ → Type 0} → ((n : ℕ) → P n → Q n) → (ps : List ℕ) → All P ps → All Q ps
All-weaken f [] h = tt
All-weaken f (x ∷ ps) h = (f x h.0, All-weaken f ps h.1)

single :
    (before : List Target) (p : ℕ)
    → (claims p before == 1) ≡ true
    → claims p (drop_shared_ports before) ≤ 1
unfolding drop_shared_ports
single before p h =
    omega (arith, claims-drop_shared-le before p before, (==_iff (claims p before) 1).0 h)

IsSettled-fewer :
    (before : List Target) (ports : List ℕ)
    → is_empty ports ≡ false
    → (is_empty (fewer_ports (distinct_ports before ports) ports) ≡ false)
      × IsSeparate before
          (drop_shared_ports before)
          (fewer_ports (distinct_ports before ports) ports)
IsSettled-fewer before ports h =
    go (distinct_ports before ports) refl (is_empty (distinct_ports before ports)) refl
      (length (distinct_ports before ports) == length ports) refl
  where
    alone : ℕ → Bool
    alone port = claims port before == 1

    go :
        (d : List ℕ)
        → distinct_ports before ports ≡ d
        → (none_left : Bool) → is_empty d ≡ none_left
        → (whole : Bool) → (length d == length ports) ≡ whole
        → (is_empty (if not none_left && not whole then d else ports) ≡ false)
          × IsSeparate before
              (drop_shared_ports before)
              (if not none_left && not whole then d else ports)
    go d f true e whole w = (h, inr (All-filter_none alone ports (ap is_empty f ∙ e)))
    go d f false e true w = (
      h,
      inl (
          All-weaken (single before) ports
            (All-filter_whole alone ports (ap length f ∙ (==_iff (length d) (length ports)).0 w))),
    )
    go d f false e false w = (
      e,
      inl (
          All-weaken (single before) d
            (subst (All (λ x. alone x ≡ true)) f (All-filter alone ports))),
    )

IsSettled-loop :
    (before ts : List Target)
    → All (λ t. is_empty t.ports ≡ false) ts
    → All (IsSettled before (drop_shared_ports before)) (drop_shared before ts)
unfolding drop_shared
IsSettled-loop before [] h = tt
IsSettled-loop before (t ∷ ts) h =
    (IsSettled-fewer before t.ports h.0, IsSettled-loop before ts h.1)

-- When every target listens, every target keeps a port, and the ports that a target keeps are either
-- claimed by no other target any more, or are ports none of which it had for itself at first.
pub drop_shared_ports-IsSettled :
    (targets : List Target)
    → All (λ t. is_empty t.ports ≡ false) targets
    → All (IsSettled targets (drop_shared_ports targets)) (drop_shared_ports targets)
drop_shared_ports-IsSettled targets h = unfold drop_shared_ports in IsSettled-loop targets targets h

-- Two targets of one name whose only port is the same number, as two containers have it, still have one
-- name when they have been told apart.
pub disambiguate-same_port :
    (a b : ℕ) (r s : Runtime) (name c d : Bytes) (port : ℕ)
    → map
        (λ t. t.name)
        (disambiguate (
          record { pid = a; runtime = r; name = name; container = c; ports = port ∷ [] }
          ∷ record { pid = b; runtime = s; name = name; container = d; ports = port ∷ [] }
          ∷ []))
      ≡ (name ++ (codes "-" ++ format_int (pos port)))
        ∷ (name ++ (codes "-" ++ format_int (pos port)))
        ∷ []
unfolding disambiguate rename named_so drop_shared_ports drop_shared claims times_in first_port
disambiguate-same_port a b r s name c d port = rw self rw (bytes_eq_refl name) refl
  where
    self : (port == port) ≡ true
    self = (==_iff port port).1 refl

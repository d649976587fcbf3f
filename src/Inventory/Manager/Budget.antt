-- ===== src/Inventory/Manager/Budget.antt =====
-- The retry budget: the remaining steps keep the invariant of the entries.
use apm2go.Base.{
  ℕ, zero, suc, ◌≤◌, List, [], ◌∷◌, true, false, some, get_elem?, set, ◌≡◌, ◌≢◌, refl, sym, ◌∙◌, ap,
  subst, ◌⊎◌, inl, inr, arith, Bool-cases, Option-cases,
}
use apm2go.Base.Dict.{lookup, insert, contains, lookup-insert, Unique, Unique-insert}
use apm2go.Inventory.Types.{Jvm, Key, key_eq, key_beq, key_beq_iff, Entry, apply_result}
use apm2go.Inventory.Lifecycle.{Config}
use apm2go.Inventory.Manager.{
  Phase, Task, Manager, new_manager, begin_attach, fail_attach, listen, Reply, unanswered, injected,
  refused, step_task, run_task, Action, act_observe, act_listen, act_consider, act_reap,
  act_request, act_manual, act_task, act, run, starting, acquired, announcing, injecting, settled,
  leaving, finished,
}
use apm2go.Inventory.Manager.Exclusion.{holds, Exclusive, Exclusive-act, Exclusive-new, two_holders}
use apm2go.Inventory.Manager.Soundness.{
  IsSound, begin_attach-IsSound, fail_attach-IsSound, apply_result-IsSound,
}
use apm2go.Inventory.Manager.Retries.{
  attempts_of, Covers, IsValid, Covers-mono, put-IsSound, put_attempts, tasks_IsValid,
  IsValid-observe, IsValid-consider, IsValid-request,
}
use apm2go.Inventory.Manager.Upkeep.{IsValid-manual, IsValid-reap}

-- What a task's step writes: nothing, or one sound entry of its own process, whose count grows only
-- as the attach begins.
abbrev Writes : Config → Key → Phase → Manager → Manager → Type 0
Writes cfg k p m n =
    (n.entries ≡ m.entries)
    ⊎ ((e : Entry) × (n.entries ≡ insert k e m.entries)
        × IsSound cfg e
        × ((e.attempts ≤ attempts_of (lookup k m.entries)) ⊎ (holds p ≡ true)))

step-Writes :
    (cfg : Config) (now : ℕ) (r : Reply) (k : Key) (p : Phase) (m : Manager)
    → Covers (attempts_of (lookup k m.entries)) p
    → Writes cfg k p m (step_task cfg now r k p m).0
unfolding step_task
step-Writes cfg now r k starting m c = inl (ground arith)
step-Writes cfg now r k acquired m c = elim (Option-cases (lookup k m.entries)) [
  | inl no_entry ↦ inl (rw (no_entry, step_task) refl)
  | inr (e, old) ↦
      inr (begin_attach e, rw (old, step_task) refl, begin_attach-IsSound cfg e, inr refl)
]
step-Writes cfg now r k (announcing a j e) m c = inl refl
step-Writes cfg now (injected res) k (injecting a j) m c =
    elim (Option-cases (lookup k m.entries)) [
      | inl no_entry ↦ inl (rw (no_entry, step_task) refl)
      | inr (e, old) ↦ inr (
        apply_result res now e,
        rw (old, step_task) refl,
        apply_result-IsSound cfg res now e,
        inr refl,
      )
    ]
step-Writes cfg now unanswered k (injecting a j) m c = inl refl
step-Writes cfg now (refused why) k (injecting a j) m c = elim (Option-cases (lookup k m.entries)) [
  | inl no_entry ↦ inl (rw (no_entry, step_task) refl)
  | inr (e, old) ↦ inr (
    fail_attach cfg now a why e,
    rw (old, step_task) refl,
    fail_attach-IsSound cfg now a why e (rw old at c),
    inr refl,
  )
]
step-Writes cfg now r k (settled o t e) m c = inl refl
step-Writes cfg now r k (leaving o) m c = inl refl
step-Writes cfg now r k (finished o) m c = inl refl

Covers-free : (n : ℕ) (p : Phase) → holds p ≡ false → Covers n p
Covers-free n starting h = tt
Covers-free n (finished o) h = tt
Covers-free n acquired h = tt
Covers-free n (announcing a j e) h = cc
Covers-free n (injecting a j) h = cc
Covers-free n (settled o t e) h = tt
Covers-free n (leaving o) h = tt

-- The stepping task's own capture.
Covers-step :
    (cfg : Config) (now : ℕ) (r : Reply) (k : Key) (p : Phase) (m : Manager)
    → Covers (attempts_of (lookup k m.entries)) p
    → let s = step_task cfg now r k p m in Covers (attempts_of (lookup k s.0.entries)) s.1
unfolding step_task begin_attach
Covers-step cfg now r k starting m c = elim (Bool-cases (contains k m.inflight)) [
  | inl b ↦ rw (b, step_task) tt
  | inr b ↦ rw (b, step_task) tt
]
Covers-step cfg now r k acquired m c = elim (Option-cases (lookup k m.entries)) [
  | inl no_entry ↦ rw (no_entry, step_task) tt
  | inr (e, old) ↦
      rw (old, step_task)
        (rw (lookup-insert k k (begin_attach e) m.entries, (key_beq_iff k k).1 refl) (omega arith))
]
Covers-step cfg now r k (announcing a j e) m c = c
Covers-step cfg now (injected res) k (injecting a j) m c =
    elim (Option-cases (lookup k m.entries)) [
      | inl no_entry ↦ rw (no_entry, step_task) tt
      | inr (e, old) ↦ rw (old, step_task) tt
    ]
Covers-step cfg now unanswered k (injecting a j) m c = c
Covers-step cfg now (refused why) k (injecting a j) m c = elim (Option-cases (lookup k m.entries)) [
  | inl no_entry ↦ rw (no_entry, step_task) tt
  | inr (e, old) ↦ rw (old, step_task) tt
]
Covers-step cfg now r k (settled o t e) m c = tt
Covers-step cfg now r k (leaving o) m c = tt
Covers-step cfg now r k (finished o) m c = tt

get_elem?-set :
    (ts : List Task) (i j : ℕ) (t' u : Task)
    → get_elem? (set ts i t') j ≡ some u
    → ((u ≡ t') × (i ≡ j)) ⊎ ((get_elem? ts j ≡ some u) × (i ≢ j))
get_elem?-set [] i j t' u h = cc
get_elem?-set (x ∷ ts) zero zero t' u h = inl (ground arith, refl)
get_elem?-set (x ∷ ts) zero (suc j) t' u h = inr (h, omega arith)
get_elem?-set (x ∷ ts) (suc i) zero t' u h = inr (h, omega arith)
get_elem?-set (x ∷ ts) (suc i) (suc j) t' u h = elim (get_elem?-set ts i j t' u h) [
  | inl (e, q) ↦ inl (e, ap suc q)
  | inr (g, ne) ↦ inr (g, λ q. ne (omega arith))
]

-- One task's step, in a manager where attaches exclude one another.
module _ (cfg : Config) (now : ℕ) (r : Reply) (m : Manager) (v : IsValid cfg m) (x : Exclusive m)
    (i : ℕ) (t : Task) (at : get_elem? m.tasks i ≡ some t) where
  abbrev stepped : Manager
  stepped = (step_task cfg now r t.key t.phase m).0

  writes : Writes cfg t.key t.phase m stepped
  writes = step-Writes cfg now r t.key t.phase m (v.captured i t at)

  Unique-after : Unique stepped.entries
  Unique-after = elim writes [
    | inl same ↦ subst Unique (sym same) v.unique
    | inr (e, en, s, c) ↦ subst Unique (sym en) (Unique-insert t.key e m.entries v.unique)
  ]

  IsSound-after : (k : Key) (e : Entry) → lookup k stepped.entries ≡ some e → IsSound cfg e
  IsSound-after k e l = elim writes [
    | inl same ↦ v.sound k e (ap (lookup k) (sym same) ∙ l)
    | inr (e', en, s, c) ↦ put-IsSound cfg t.key e' m v s k e (ap (lookup k) (sym en) ∙ l)
  ]

  -- Two tasks of one process do not both hold it.
  other_free :
      (j : ℕ) (u : Task)
      → get_elem? m.tasks j ≡ some u
      → i ≢ j
      → holds t.phase ≡ true
      → key_beq t.key u.key ≡ true
      → holds u.phase ≡ false
  other_free j u g ne h same = elim (Bool-cases (holds u.phase)) [
    | inr free ↦ free
    | inl busy ↦ absurd (
        ground (
          arith,
          x u.key,
          two_holders u.key m.tasks i j t u at g ne same ((key_beq_iff u.key u.key).1 refl) h busy,
        ))
  ]

  other_captured :
      (j : ℕ) (u : Task)
      → get_elem? m.tasks j ≡ some u
      → i ≢ j
      → Covers (attempts_of (lookup u.key stepped.entries)) u.phase
  other_captured j u g ne = elim writes [
    | inl same ↦ rw same (v.captured j u g)
    | inr (e, en, s, c) ↦ elim (Bool-cases (key_beq t.key u.key)) [
      | inr other ↦ rw (en, lookup-insert t.key u.key e m.entries, other) (v.captured j u g)
      | inl same ↦ elim c [
        | inl less ↦
            Covers-mono _ _ u.phase (rw en (put_attempts cfg t.key e m less u.key))
              (v.captured j u g)
        | inr h ↦ Covers-free _ u.phase (other_free j u g ne h same)
      ]
    ]
  ]

  IsValid-step : IsValid cfg (record stepped {
    tasks = set m.tasks i (record t { phase = (step_task cfg now r t.key t.phase m).1 });
  })
  IsValid-step = record {
    unique = Unique-after;
    sound = IsSound-after;
    captured = λ j u g. elim (get_elem?-set m.tasks i j _ u g) [
      | inl (e, q) ↦
          subst (λ (w : Task). Covers (attempts_of (lookup w.key stepped.entries)) w.phase) (sym e)
            (Covers-step cfg now r t.key t.phase m (v.captured i t at))
      | inr (old, ne) ↦ other_captured j u old ne
    ];
  }

IsValid-task :
    (cfg : Config) (now : ℕ) (r : Reply) (i : ℕ) (m : Manager)
    → Exclusive m
    → IsValid cfg m
    → IsValid cfg (run_task cfg now r i m)
unfolding run_task
IsValid-task cfg now r i m x v = elim (Option-cases (get_elem? m.tasks i)) [
  | inl out ↦ rw (out, run_task) v
  | inr (t, e) ↦ rw (e, run_task) (IsValid-step cfg now r m v x i t e)
]

IsValid-listen :
    (cfg : Config) (j : Jvm) (m : Manager) → IsValid cfg m → IsValid cfg (listen cfg j m)
IsValid-listen cfg j m v =
    tasks_IsValid cfg m (listen cfg j m) (unfold listen in ground arith)
      (unfold listen in ground arith) v

IsValid-act :
    (cfg : Config) (a : Action) (m : Manager)
    → Exclusive m
    → IsValid cfg m
    → IsValid cfg (act cfg a m)
unfolding act
IsValid-act cfg (act_observe j now) m x v = IsValid-observe cfg j now m v
IsValid-act cfg (act_listen j) m x v = IsValid-listen cfg j m v
IsValid-act cfg (act_consider k now) m x v = IsValid-consider cfg k now m v
IsValid-act cfg (act_reap seen now) m x v = IsValid-reap cfg seen now m v
IsValid-act cfg (act_request pid) m x v = IsValid-request cfg pid m v
IsValid-act cfg (act_manual pid b) m x v = IsValid-manual cfg pid b m v
IsValid-act cfg (act_task now r i) m x v = IsValid-task cfg now r i m x v

IsValid-run :
    (cfg : Config) (as' : List Action) (m : Manager)
    → Exclusive m
    → IsValid cfg m
    → IsValid cfg (run cfg as' m)
unfolding run
IsValid-run cfg [] m x v = v
IsValid-run cfg (a ∷ as') m x v =
    IsValid-run cfg as' (act cfg a m) (Exclusive-act cfg a m x) (IsValid-act cfg a m x v)

IsValid-new : (cfg : Config) → IsValid cfg new_manager
unfolding new_manager lookup
IsValid-new cfg = record { unique = tt; sound = λ k e h. cc; captured = λ i t h. cc }

-- Every reachable manager satisfies the invariant.
pub reachable_IsValid : (cfg : Config) (as' : List Action) → IsValid cfg (run cfg as' new_manager)
reachable_IsValid cfg as' = IsValid-run cfg as' new_manager Exclusive-new (IsValid-new cfg)

-- In every reachable manager a tracked process has a retry scheduled only while it is failed or being
-- attached, and a failed one with a retry scheduled has attempts left.
pub retries_within_budget :
    (cfg : Config) (as' : List Action) (k : Key) (e : Entry)
    → lookup k (run cfg as' new_manager).entries ≡ some e
    → IsSound cfg e
retries_within_budget cfg as' = (reachable_IsValid cfg as').sound

-- ===== src/Inventory/Manager/Exclusion.antt =====
-- One attach to a process at a time: the in-flight table against the tasks that run.
use apm2go.Base.{
  ℕ, zero, suc, ◌+◌, ◌≤◌, List, [], ◌∷◌, ◌++◌, Bool, true, false, if◌then◌else◌, some, get_elem?,
  set, ◌≡◌, refl, ap, inl, inr, arith, ◌<◌, ◌↔◌, ◌≢◌, Option-cases,
}
use apm2go.Base.Dict.{contains, contains-add, contains-remove}
use apm2go.Inventory.Types.{Key, key_eq, key_beq, key_beq_iff}
use apm2go.Inventory.Lifecycle.{Config}
use apm2go.Inventory.Manager.{
  Phase, Task, Manager, new_manager, observe, listen, consider, spawn, reap_missing, request_attach,
  set_manual_only, Reply, unanswered, injected, refused, step_task, run_task, Action, act_observe,
  act_listen, act_consider, act_reap, act_request, act_manual, act_task, act, run, starting,
  acquired, announcing, injecting, settled, leaving, finished,
}

-- Between LoadOrStore and the deferred Delete.
abbrev pub holds : Phase → Bool
holds starting = false
holds (finished o) = false
holds _ = true

abbrev one_if : Bool → ℕ
one_if true = 1
one_if false = 0

-- How many tasks hold a key.
pub holders : Key → List Task → ℕ
holders k [] = 0
holders k (t ∷ ts) = (if key_beq t.key k then one_if (holds t.phase) else 0) + holders k ts

holders-append : (k : Key) (ts us : List Task) → holders k (ts ++ us) ≡ holders k ts + holders k us
unfolding holders
holders-append k [] us = omega arith
holders-append k (t ∷ ts) us = omega (arith, holders-append k ts us)

holders-set :
    (k : Key) (ts : List Task) (i : ℕ) (t : Task) (p : Phase)
    → get_elem? ts i ≡ some t
    → holders k (set ts i (record t { phase = p }))
        + (if key_beq t.key k then one_if (holds t.phase) else 0)
      ≡ holders k ts + (if key_beq t.key k then one_if (holds p) else 0)
unfolding holders
holders-set k [] i t p h = cc
holders-set k (u ∷ ts) zero t p h = ground arith
holders-set k (u ∷ ts) (suc i) t p h = omega (arith, holders-set k ts i t p h)

-- The table says for each key exactly whether some task holds it, and then one task does.
abbrev pub Exclusive : Manager → Type 0
Exclusive m = (k : Key) → holders k m.tasks ≡ one_if (contains k m.inflight)

-- A step that leaves both alone.
record SameTasks (m n : Manager) : Type 0 where
  tasks : n.tasks ≡ m.tasks
  inflight : n.inflight ≡ m.inflight

Exclusive-same : {m n : Manager} → SameTasks m n → Exclusive m → Exclusive n
Exclusive-same s h k = ground (arith, s.tasks, s.inflight, h k)

Exclusive-spawn : (k : Key) (m : Manager) → Exclusive m → Exclusive (spawn k m)
unfolding spawn holders
Exclusive-spawn k m h j =
    rw (holders-append j m.tasks (record { key = k; phase = starting } ∷ [])) (ground (arith, h j))

same_observe : (cfg : Config) (j : _) (now : ℕ) (m : Manager) → SameTasks m (observe cfg j now m)
unfolding observe
same_observe cfg j now m = ground arith

same_listen : (cfg : Config) (j : _) (m : Manager) → SameTasks m (listen cfg j m)
unfolding listen
same_listen cfg j m = ground arith

same_reap : (seen : List Key) (now : ℕ) (m : Manager) → SameTasks m (reap_missing seen now m)
unfolding reap_missing
same_reap seen now m = record { tasks = refl; inflight = refl }

same_manual : (pid : ℕ) (b : Bool) (m : Manager) → SameTasks m (set_manual_only pid b m)
unfolding set_manual_only
same_manual pid b m = ground arith

Exclusive-consider :
    (cfg : Config) (k : Key) (now : ℕ) (m : Manager)
    → Exclusive m
    → Exclusive (consider cfg k now m)
unfolding consider holders
Exclusive-consider cfg k now m h j =
    ground (arith, h j, holders-append j m.tasks (record { key = k; phase = starting } ∷ []))

Exclusive-request : (pid : ℕ) (m : Manager) → Exclusive m → Exclusive (request_attach pid m)
unfolding request_attach holders
Exclusive-request pid m h j = grind (arith, h j, holders-append)

held :
    (k : Key) (ts : List Task) (i : ℕ) (t : Task)
    → get_elem? ts i ≡ some t
    → key_beq t.key k ≡ true
    → holds t.phase ≡ true
    → 0 < holders k ts
unfolding holders
held k [] i t h e g = cc
held k (u ∷ ts) zero t h e g = ground arith
held k (u ∷ ts) (suc i) t h e g = omega (arith, held k ts i t h e g)

-- Two tasks that hold one key are two holders.
pub two_holders :
    (k : Key) (ts : List Task) (i j : ℕ) (t u : Task)
    → get_elem? ts i ≡ some t
    → get_elem? ts j ≡ some u
    → i ≢ j
    → key_beq t.key k ≡ true
    → key_beq u.key k ≡ true
    → holds t.phase ≡ true
    → holds u.phase ≡ true
    → 2 ≤ holders k ts
unfolding holders
two_holders k [] i j t u g g' ne e e' h h' = cc
two_holders k (x ∷ ts) zero zero t u g g' ne e e' h h' = absurd (ne refl)
two_holders k (x ∷ ts) zero (suc j) t u g g' ne e e' h h' = ground (arith, held k ts j u g' e' h')
two_holders k (x ∷ ts) (suc i) zero t u g g' ne e e' h h' = ground (arith, held k ts i t g e h)
two_holders k (x ∷ ts) (suc i) (suc j) t u g g' ne e e' h h' =
    omega (arith, two_holders k ts i j t u g g' (λ q. ne (ap suc q)) e e' h h')

-- A task's step moves its own hold and the table together.
balance :
    (cfg : Config) (now : ℕ) (r : Reply) (k : Key) (p : Phase) (m : Manager) (j : Key)
    → (holds p ≡ true → contains k m.inflight ≡ true)
    → let (m', p') = step_task cfg now r k p m in
      one_if (contains j m'.inflight) + (if key_beq k j then one_if (holds p) else 0)
      ≡ one_if (contains j m.inflight) + (if key_beq k j then one_if (holds p') else 0)
unfolding step_task
balance cfg now r k starting m j h = ground (arith, contains-add k j m.inflight, key_beq_iff k j)
balance cfg now r k acquired m j h = ground (arith)
balance cfg now r k (announcing a v e) m j h = omega arith
balance cfg now (injected res) k (injecting a v) m j h = ground arith
balance cfg now unanswered k (injecting a v) m j h = omega arith
balance cfg now (refused why) k (injecting a v) m j h = ground arith
balance cfg now r k (settled o t e) m j h = omega arith
balance cfg now r k (leaving o) m j h =
    ground (arith, contains-remove k j m.inflight, key_beq_iff k j, h refl)
balance cfg now r k (finished o) m j h = omega arith

pub tasks-step_task :
    (cfg : Config) (now : ℕ) (r : Reply) (k : Key) (p : Phase) (m : Manager)
    → (step_task cfg now r k p m).0.tasks ≡ m.tasks
unfolding step_task
tasks-step_task cfg now r k starting m = ground arith
tasks-step_task cfg now r k acquired m = ground arith
tasks-step_task cfg now r k (announcing a v e) m = refl
tasks-step_task cfg now (injected res) k (injecting a v) m = ground arith
tasks-step_task cfg now unanswered k (injecting a v) m = refl
tasks-step_task cfg now (refused why) k (injecting a v) m = ground arith
tasks-step_task cfg now r k (settled o t e) m = refl
tasks-step_task cfg now r k (leaving o) m = refl
tasks-step_task cfg now r k (finished o) m = refl

key_beq_refl : (k : Key) → key_beq k k ≡ true
key_beq_refl k = (key_beq_iff k k).1 refl

has_table :
    (m : Manager) (i : ℕ) (t : Task)
    → Exclusive m
    → get_elem? m.tasks i ≡ some t
    → holds t.phase ≡ true
    → contains t.key m.inflight ≡ true
has_table m i t h e g = ground (arith, h t.key, held t.key m.tasks i t e (key_beq_refl t.key) g)

Exclusive-task :
    (cfg : Config) (now : ℕ) (r : Reply) (i : ℕ) (m : Manager)
    → Exclusive m
    → Exclusive (run_task cfg now r i m)
unfolding run_task
Exclusive-task cfg now r i m h j = elim (Option-cases (get_elem? m.tasks i)) [
  | inl out ↦ rw (out, run_task) (h j)
  | inr (t, e) ↦
      rw (e, run_task)
        (omega (
          arith,
          balance cfg now r t.key t.phase m j (has_table m i t h e),
          holders-set j m.tasks i t (step_task cfg now r t.key t.phase m).1 e,
          h j,
        ))
]

pub Exclusive-act :
    (cfg : Config) (a : Action) (m : Manager) → Exclusive m → Exclusive (act cfg a m)
unfolding act
Exclusive-act cfg (act_observe j now) m h = Exclusive-same (same_observe cfg j now m) h
Exclusive-act cfg (act_listen j) m h = Exclusive-same (same_listen cfg j m) h
Exclusive-act cfg (act_consider k now) m h = Exclusive-consider cfg k now m h
Exclusive-act cfg (act_reap seen now) m h = Exclusive-same (same_reap seen now m) h
Exclusive-act cfg (act_request pid) m h = Exclusive-request pid m h
Exclusive-act cfg (act_manual pid b) m h = Exclusive-same (same_manual pid b m) h
Exclusive-act cfg (act_task now r i) m h = Exclusive-task cfg now r i m h

pub Exclusive-run :
    (cfg : Config) (as' : List Action) (m : Manager) → Exclusive m → Exclusive (run cfg as' m)
unfolding run
Exclusive-run cfg [] m h = h
Exclusive-run cfg (a ∷ as') m h = Exclusive-run cfg as' (act cfg a m) (Exclusive-act cfg a m h)

pub Exclusive-new : Exclusive new_manager
unfolding new_manager holders contains
Exclusive-new k = refl

-- Whatever passes, requests and attaches interleave, at most one attach works on a process between
-- entering the in-flight table and leaving it, and the table lists a process exactly while one does.
pub one_attach_per_process :
    (cfg : Config) (as' : List Action) (k : Key)
    → let m = run cfg as' new_manager in
      (holders k m.tasks ≤ 1) × ((contains k m.inflight ≡ true) ↔ (0 < holders k m.tasks))
one_attach_per_process cfg as' k =
    let h : holders k (run cfg as' new_manager).tasks
        ≡ one_if (contains k (run cfg as' new_manager).inflight) =
      Exclusive-run cfg as' new_manager Exclusive-new k in
    (ground arith, (λ c. ground arith, λ c. ground arith))

-- ===== src/Inventory/Manager.antt =====
-- internal/inventory/manager.go: the manager's state and its operations. Each stretch of `attach`
-- under the lock is one step, and so are its injection, its publications and its uses of the
-- in-flight table, so that running attaches interleave with everything else. The short operator
-- requests are one step each, from keyForPID to the publication; `none` where a key is gone stands
-- for a state that no request meets, since only entries long exited are dropped.
pub mod Exclusion
pub mod Reaping
pub mod Soundness
pub mod Retries
pub mod Upkeep
pub mod Budget
pub mod Passes
pub mod Operator
use apm2go.Base.{
  ℕ, zero, suc, ◌+◌, ◌-◌, List, [], ◌∷◌, ◌++◌, Bool, true, false, not, ◌&&◌, if◌then◌else◌, ltb,
  ◌==◌, is_empty, Option, none, some, get_elem?, set,
}
use apm2go.Base.Eq.{Bytes}
use apm2go.Base.Dict.{Dict, lookup, insert, contains, add, remove}
use apm2go.Inventory.Types.{
  State, discovered, attaching, failed, skipped, exited, Reason, no_reason, disabled_by_operator,
  failure, Jvm, Key, key_eq, key, Entry, InjectResult, apply_result, EventType, ev_discovered,
  ev_state_changed, ev_attached, ev_attach_failed, ev_exited, Event,
}
use apm2go.Inventory.Bus.{Bus, new_event_bus, publish}
use apm2go.Inventory.Lifecycle.{
  Config, exited_retention, classify, new_entry, is_exited, refresh, should_attach, same_state,
}

-- How a call of `attach` ended.
pub data Outcome : Type 0 where
  busy untracked gone not_attached done : Outcome

-- Where a call of `attach` stands, with the locals that it still needs.
pub data Phase : Type 0 where
  starting acquired : Phase
  announcing : ℕ → Jvm → Entry → Phase
  injecting : ℕ → Jvm → Phase
  settled : Outcome → EventType → Entry → Phase
  leaving finished : Outcome → Phase

pub record Task : Type 0 where
  pub key : Key
  pub phase : Phase

pub record Manager : Type 0 where
  pub entries : Dict Key Entry
  pub inflight : List Key
  pub bus : Bus
  -- The calls of `ListenOnGateway`, latest first.
  pub listening : List Bytes
  pub tasks : List Task

unfoldable pub new_manager : Manager
unfolding new_event_bus
new_manager = record {
  entries = [];
  inflight = [];
  bus = new_event_bus;
  listening = [];
  tasks = [];
}

put_entry : Key → Entry → Manager → Manager
put_entry k e m = record m { entries = insert k e m.entries }

notify : EventType → Entry → Manager → Manager
notify t e m = record m { bus = publish (record { type = t; entry = e }) m.bus }

unfoldable pub observe : Config → Jvm → ℕ → Manager → Manager
unfolding put_entry notify
observe cfg j now m = elim (lookup (key j) m.entries) [
  | none ↦
      (let e = classify cfg now (new_entry j now) in
        notify ev_discovered e (put_entry (key j) (record e { last_seen = now }) m))
  | some e ↦ put_entry (key j) (record (refresh cfg j now e) { last_seen = now }) m
]

-- The call of `ListenOnGateway` in `reconcile`.
unfoldable pub listen : Config → Jvm → Manager → Manager
listen cfg j m =
    if cfg.has_gateways && not (is_empty j.gateway)
    then record m { listening = j.gateway ∷ m.listening }
    else m

unfoldable pub spawn : Key → Manager → Manager
spawn k m = record m { tasks = m.tasks ++ record { key = k; phase = starting } ∷ [] }

-- `if m.shouldAttach(entry, now) { go m.attach(ctx, key) }`
unfoldable pub consider : Config → Key → ℕ → Manager → Manager
unfolding spawn
consider cfg k now m = elim (lookup k m.entries) [
  | none ↦ m
  | some e ↦ if should_attach cfg now e then spawn k m else m
]

-- One entry that the scan did not find: kept or dropped, and the bus after it.
unfoldable pub reap_entry : ℕ → Key → Entry → Bus → Option Entry × Bus
reap_entry now k e b =
    if not (is_exited e.state)
    then (let e' = record e { state = exited; exited_at = now; next_attempt = 0 } in
        (some e', publish (record { type = ev_exited; entry = e' }) b))
    else if ltb (e.exited_at + exited_retention) now
    then (none, b)
    else (some e, b)

abbrev keep : Key → Option Entry → Dict Key Entry → Dict Key Entry
keep k none m = m
keep k (some e) m = (k, e) ∷ m

reap_all : List Key → ℕ → Dict Key Entry → Bus → Dict Key Entry × Bus
reap_all seen now [] b = ([], b)
reap_all seen now ((k, e) ∷ m) b =
    let (kept, b') = if contains k seen then (some e, b) else reap_entry now k e b in
    let (rest, b'') = reap_all seen now m b' in (keep k kept rest, b'')

unfoldable pub reap_missing : List Key → ℕ → Manager → Manager
unfolding reap_all reap_entry
reap_missing seen now m =
    let (entries', b) = reap_all seen now m.entries m.bus in
    record m { entries = entries'; bus = b }

-- `keyForPID`: the first live entry of the pid; `none` is its error.
unfoldable pub key_for_pid : ℕ → Dict Key Entry → Option Key
key_for_pid pid [] = none
key_for_pid pid ((k, e) ∷ m) =
    if e.jvm.pid == pid && not (is_exited e.state) then some k else key_for_pid pid m

-- `Attach` up to its call of `attach`: the retry budget is cleared and the attach started.
unfoldable pub clear_budget : Entry → Entry
clear_budget e = record e { attempts = 0; manual_only = false }

unfoldable pub request_attach : ℕ → Manager → Manager
unfolding put_entry spawn
request_attach pid m = elim (key_for_pid pid m.entries) [
  | none ↦ m
  | some k ↦ elim (lookup k m.entries) [
    | none ↦ m
    | some e ↦ spawn k (put_entry k (clear_budget e) m)
  ]
]

abbrev pub is_disabled : Reason → Bool
is_disabled disabled_by_operator = true
is_disabled _ = false

unfoldable pub apply_manual : Bool → Entry → Entry
apply_manual manual e =
    let e1 = record e { manual_only = manual } in
    let e2 =
      if manual && same_state e1.state discovered
      then record e1 { state = skipped; reason = disabled_by_operator }
      else e1 in
    if not manual && (same_state e2.state skipped && is_disabled e2.reason)
    then record e2 { state = discovered; reason = no_reason }
    else e2

unfoldable pub set_manual_only : ℕ → Bool → Manager → Manager
unfolding put_entry notify
set_manual_only pid manual m = elim (key_for_pid pid m.entries) [
  | none ↦ m
  | some k ↦ elim (lookup k m.entries) [
    | none ↦ m
    | some e ↦ (let e' = apply_manual manual e in notify ev_state_changed e' (put_entry k e' m))
  ]
]

-- The injector's answer, or that it has not answered yet: the call may block.
pub data Reply : Type 0 where
  unanswered : Reply
  injected : InjectResult → Reply
  refused : Bytes → Reply

-- `attach`, from LoadOrStore to the deferred Delete, one step at a time. `now` is the time of the
-- step, and `reply` what the injector has returned by then, which only an injecting task reads.
unfoldable pub begin_attach : Entry → Entry
begin_attach e = record e { state = attaching; attempts = e.attempts + 1 }

unfoldable pub fail_attach : Config → ℕ → ℕ → Bytes → Entry → Entry
fail_attach cfg now attempt why e = record e {
  state = failed;
  reason = failure why;
  next_attempt = if ltb attempt cfg.max_retries then now + cfg.retry_backoff else 0;
}

unfoldable pub step_task : Config → ℕ → Reply → Key → Phase → Manager → Manager × Phase
unfolding put_entry notify
step_task cfg now reply k starting m =
    if contains k m.inflight
    then (m, finished busy)
    else (record m { inflight = add k m.inflight }, acquired)
step_task cfg now reply k acquired m = elim (lookup k m.entries) [
  | none ↦ (m, leaving untracked)
  | some e ↦ (let e' = begin_attach e in (put_entry k e' m, announcing e'.attempts e'.jvm e'))
]
step_task cfg now reply k (announcing attempt j e) m =
    (notify ev_state_changed e m, injecting attempt j)
step_task cfg now unanswered k (injecting attempt j) m = (m, injecting attempt j)
step_task cfg now (refused why) k (injecting attempt j) m = elim (lookup k m.entries) [
  | none ↦ (m, leaving gone)
  | some e ↦
      (let e' = fail_attach cfg now attempt why e in
        (put_entry k e' m, settled not_attached ev_attach_failed e'))
]
step_task cfg now (injected res) k (injecting attempt j) m = elim (lookup k m.entries) [
  | none ↦ (m, leaving gone)
  | some e ↦ (let e' = apply_result res now e in (put_entry k e' m, settled done ev_attached e'))
]
step_task cfg now reply k (settled o t e) m = (notify t e m, leaving o)
step_task cfg now reply k (leaving o) m = (record m { inflight = remove k m.inflight }, finished o)
step_task cfg now reply k (finished o) m = (m, finished o)

-- The task at an index makes its next step.
unfoldable pub run_task : Config → ℕ → Reply → ℕ → Manager → Manager
unfolding step_task
run_task cfg now reply i m = elim (get_elem? m.tasks i) [
  | none ↦ m
  | some t ↦
      (let (m', p) = step_task cfg now reply t.key t.phase m in
        record m' { tasks = set m.tasks i (record t { phase = p }) })
]

-- What may happen next, in whatever order the scheduler and the operator choose.
pub data Action : Type 0 where
  act_observe : Jvm → ℕ → Action
  act_listen : Jvm → Action
  act_consider : Key → ℕ → Action
  act_reap : List Key → ℕ → Action
  act_request : ℕ → Action
  act_manual : ℕ → Bool → Action
  act_task : ℕ → Reply → ℕ → Action

unfoldable pub act : Config → Action → Manager → Manager
act cfg (act_observe j now) m = observe cfg j now m
act cfg (act_listen j) m = listen cfg j m
act cfg (act_consider k now) m = consider cfg k now m
act cfg (act_reap seen now) m = reap_missing seen now m
act cfg (act_request pid) m = request_attach pid m
act cfg (act_manual pid manual) m = set_manual_only pid manual m
act cfg (act_task now reply i) m = run_task cfg now reply i m

unfoldable pub run : Config → List Action → Manager → Manager
run cfg [] m = m
run cfg (a ∷ as') m = run cfg as' (act cfg a m)

-- `reconcile`: what one pass does for the JVMs that the scan found, with nothing in between.
pass : List Jvm → ℕ → List Action
pass [] now = []
pass (j ∷ js) now = act_observe j now ∷ act_listen j ∷ act_consider (key j) now ∷ pass js now

keys_of : List Jvm → List Key
keys_of [] = []
keys_of (j ∷ js) = add (key j) (keys_of js)

unfoldable pub reconcile : Config → List Jvm → ℕ → Manager → Manager
unfolding pass keys_of run
reconcile cfg found now m = run cfg (pass found now ++ act_reap (keys_of found) now ∷ []) m

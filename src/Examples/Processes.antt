-- ===== src/Examples/Processes.antt =====
-- The inventory on a few processes.
use apm2go.Base.{ℕ, List, [], ◌∷◌, Bool, true, false, ◌≤◌, none, some, ◌≡◌, refl, ◌↔◌, ◌<◌}
use apm2go.Base.Eq.{codes}
use apm2go.Base.Dict.{Dict, lookup, insert, contains, add, remove, Unique}
use apm2go.Discovery.Filter.{accept}
use apm2go.Inventory.Types.{
  Jvm, Key, key_eq, key_beq, key, Entry, State, discovered, failed, exited, no_reason, failure,
  attachable,
}
use apm2go.Inventory.Bus.{new_event_bus}
use apm2go.Inventory.Lifecycle.{Config, classify, new_entry, should_attach, settle, round_second}
use apm2go.Inventory.Manager.{
  Manager, new_manager, Action, act_observe, act_consider, act_task, act, run, observe, consider,
  run_task, step_task, begin_attach, fail_attach, Reply, refused, key_for_pid, spawn,
}
use apm2go.Inventory.Manager.Exclusion.{holders, one_attach_per_process}
use apm2go.Inventory.Manager.Soundness.{IsSound}
use apm2go.Inventory.Manager.Budget.{retries_within_budget}
use apm2go.Inventory.Manager.Passes.{passes, exited_despite_sightings}

abbrev service_of : ℕ → Bool → Jvm
service_of start other_agent = record {
  pid = 41;
  start_time = start;
  service_name = codes "shop";
  cmdline = [];
  systemd_unit = [];
  container_id = [];
  gateway = [];
  java_major = 17;
  already_instrumented = other_agent;
  instrumented_by_us = false;
}

abbrev pub shop : Jvm
shop = service_of 100 false

abbrev shop_key : Key
shop_key = (41, 100)

abbrev settings : Config
settings = record {
  filter = none;
  min_uptime = 10;
  auto_attach = true;
  max_retries = 3;
  retry_backoff = 1000;
  has_gateways = false;
}

abbrev pub entry_of : Jvm → State → Entry
entry_of j s = record {
  jvm = j;
  state = s;
  reason = no_reason;
  warnings = [];
  first_seen = 200;
  last_seen = 200;
  attempts = 0;
  next_attempt = 0;
  attached_at = 0;
  exited_at = 0;
  endpoint = [];
  manual_only = false;
}

abbrev holding : Dict Key Entry → Manager
holding es = record { entries = es; inflight = []; bus = new_event_bus; listening = []; tasks = [] }

abbrev refusal : Reply
refusal = refused (codes "no such file")

-- Seen, attached to and refused.
abbrev failing : List Action
failing =
    act_observe shop 200
    ∷ act_consider shop_key 200
    ∷ act_task 200 refusal 0
    ∷ act_task 200 refusal 0
    ∷ act_task 200 refusal 0
    ∷ act_task 200 refusal 0
    ∷ act_task 200 refusal 0
    ∷ act_task 200 refusal 0
    ∷ []

abbrev failed_shop : Entry
failed_shop = record (entry_of shop failed) {
  reason = failure (codes "no such file");
  attempts = 1;
  next_attempt = 1200;
}

failed_once : lookup shop_key (run settings failing new_manager).entries ≡ some failed_shop
unfolding run act observe consider run_task new_manager lookup insert key key_beq classify new_entry
    attachable settle should_attach begin_attach fail_attach accept step_task spawn contains add
    remove round_second
failed_once = refl

one_attach_per_process_example :
    let m = run settings failing new_manager in
    (holders shop_key m.tasks ≤ 1)
    × ((contains shop_key m.inflight ≡ true) ↔ (0 < holders shop_key m.tasks))
one_attach_per_process_example = one_attach_per_process settings failing shop_key

retries_within_budget_example : IsSound settings failed_shop
retries_within_budget_example =
    retries_within_budget settings failing shop_key failed_shop failed_once

abbrev both : Dict Key Entry
both =
    (shop_key, entry_of shop discovered) ∷ ((41, 200), entry_of (service_of 200 false) exited) ∷ []

Unique-both : Unique both
unfolding lookup key_beq
Unique-both = (refl, (refl, tt))

abbrev gone_shop : Entry
gone_shop = record (entry_of shop exited) { exited_at = 250 }

abbrev with_gone : Manager
with_gone = holding ((shop_key, gone_shop) ∷ [])

exited_despite_sightings_example :
    let n = passes settings shop (300 ∷ 310 ∷ []) with_gone in
    ((d : Entry) × (lookup (key shop) n.entries ≡ some d) × (d.state ≡ exited)) × (n.tasks ≡ [])
unfolding lookup key key_beq
exited_despite_sightings_example =
    exited_despite_sightings settings shop (300 ∷ 310 ∷ []) with_gone gone_shop (refl, tt) refl refl

resolved : key_for_pid 41 both ≡ some shop_key
unfolding key_for_pid
resolved = refl

abbrev guarded : Jvm
guarded = service_of 100 true

-- ===== src/Inventory/Lifecycle.antt =====
-- internal/inventory/manager.go: what the manager decides about one entry, and the settings that it
-- reads. Durations are nanoseconds and not negative, which the defaults satisfy.
use apm2go.Base.{
  ℕ, ◌+◌, ◌-◌, ◌%◌, [], ◌∷◌, ◌++◌, Bool, true, false, not, ◌&&◌, ◌||◌, if◌then◌else◌, ltb, leb,
  ◌==◌, Option,
}
use apm2go.Base.Eq.{Bytes, codes}
use apm2go.Discovery.Filter.{Filter, accept}
use apm2go.Inventory.Types.{
  State, discovered, pending, attaching, attached, failed, skipped, exited, no_reason,
  excluded_by_filters, instrumented_at_startup, settling, Jvm, may_attach, may_not, attachable,
  Entry,
}

pub record Config : Type 0 where
  pub filter : Option Filter
  pub min_uptime : ℕ
  pub auto_attach : Bool
  pub max_retries : ℕ
  pub retry_backoff : ℕ
  -- `gateways != nil`
  pub has_gateways : Bool

abbrev pub second : ℕ
second = 1_000_000_000

abbrev pub exited_retention : ℕ
exited_retention = 600_000_000_000

-- `Duration.Round(time.Second)` of a positive duration: halves go up.
unfoldable pub round_second : ℕ → ℕ
round_second d = let r = d % second in if ltb (r + r) second then d - r else d - r + second

abbrev pub conflict_warning : Bytes
conflict_warning =
    codes "this JVM already runs another Java agent; loading a second one can cause conflicts"

-- The last part of `classify`. `age >= MinUptime` is `start + min_uptime <= now`, also where the
-- start lies ahead of `now`; what is left to wait is then positive.
unfoldable pub settle : Config → ℕ → Entry → Entry
unfolding round_second
settle cfg now e =
    let start = e.jvm.start_time in
    if start == 0 || leb (start + cfg.min_uptime) now
    then record e { state = discovered; reason = no_reason }
    else record e {
      state = pending;
      reason = settling (round_second (start + cfg.min_uptime - now));
    }

unfoldable pub classify : Config → ℕ → Entry → Entry
unfolding settle attachable
classify cfg now e =
    if not (accept cfg.filter e.jvm)
    then record e { state = skipped; reason = excluded_by_filters }
    else elim (attachable e.jvm) [
      | may_not why ↦
          if e.jvm.instrumented_by_us
          then record e {
            state = attached;
            reason = instrumented_at_startup;
            attached_at = e.jvm.start_time;
          }
          else record e { state = skipped; reason = why }
      | may_attach ↦ settle cfg now (
          if e.jvm.already_instrumented
          then record e { warnings = e.warnings ++ conflict_warning ∷ [] }
          else e)
    ]

-- The entry that `observe` makes on first contact.
unfoldable pub new_entry : Jvm → ℕ → Entry
new_entry j now = record {
  jvm = j;
  state = discovered;
  reason = no_reason;
  warnings = [];
  first_seen = now;
  last_seen = 0;
  attempts = 0;
  next_attempt = 0;
  attached_at = 0;
  exited_at = 0;
  endpoint = [];
  manual_only = false;
}

abbrev pub is_pending : State → Bool
is_pending pending = true
is_pending _ = false

abbrev pub is_exited : State → Bool
is_exited exited = true
is_exited _ = false

-- The `else` branch of `observe`: the metadata is refreshed, and a pending entry classified again.
unfoldable pub refresh : Config → Jvm → ℕ → Entry → Entry
refresh cfg j now e =
    let e' = record e { jvm = j } in if is_pending e.state then classify cfg now e' else e'

abbrev due : Config → ℕ → State → ℕ → ℕ → Bool
due cfg now discovered attempts next = true
due cfg now failed attempts next = ltb attempts cfg.max_retries && (not (next == 0) && ltb next now)
due cfg now _ attempts next = false

unfoldable pub should_attach : Config → ℕ → Entry → Bool
should_attach cfg now e =
    if not cfg.auto_attach
    then false
    else if e.manual_only
    then false
    else due cfg now e.state e.attempts e.next_attempt

-- `List`: what needs attention first, and the newest process first within a state.
unfoldable pub state_priority : State → ℕ
state_priority failed = 0
state_priority attaching = 1
state_priority discovered = 2
state_priority pending = 2
state_priority attached = 3
state_priority skipped = 4
state_priority exited = 5

abbrev state_code : State → ℕ
state_code discovered = 0
state_code pending = 1
state_code attaching = 2
state_code attached = 3
state_code failed = 4
state_code skipped = 5
state_code exited = 6

-- `==` of two states.
abbrev pub same_state : State → State → Bool
same_state a b = state_code a == state_code b

unfoldable pub listed_before : Entry → Entry → Bool
unfolding state_priority
listed_before a b =
    if not (same_state a.state b.state)
    then ltb (state_priority a.state) (state_priority b.state)
    else ltb b.jvm.start_time a.jvm.start_time

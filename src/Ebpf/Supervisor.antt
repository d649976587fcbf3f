-- ===== src/Ebpf/Supervisor.antt =====
-- internal/ebpf/supervisor.go: SetTargets, sameTargets, targetKey, and the loop of Run with
-- runUntilChangedOrFailed. What the channel, the child process and the context do next is an event.
pub mod Sameness
pub mod Wakeups
use apm2go.Base.{
  ℕ, List, [], ◌∷◌, ◌++◌, Bool, true, false, not, if◌then◌else◌, ◌==◌, is_empty, length, map, all,
}
use apm2go.Base.Eq.{Bytes, codes, text_eq}
use apm2go.Base.Int.{pos}
use apm2go.Base.Dict.{contains}
use apm2go.Base.Text.{join}
use apm2go.Ingest.Values.{format_int}
use apm2go.Ebpf.Targets.{Target}

-- What "%v" prints of a slice of numbers.
abbrev pub format_ports : List ℕ → Bytes
format_ports ports =
    codes "[" ++ (join (codes " ") (map (λ p. format_int (pos p)) ports) ++ codes "]")

unfoldable pub target_key : Target → Bytes
target_key t =
    t.name
    ++ (codes "|"
        ++ (t.runtime
            ++ (codes "|" ++ (format_int (pos t.pid) ++ (codes "|" ++ format_ports t.ports)))))

-- The loops over the two sets, on the keys of the targets; the index is the list of the keys.
unfoldable pub same_keys : List Bytes → List Bytes → Bool
same_keys a b = if not (length a == length b) then false else all (λ k. contains k a) b

unfoldable pub same_targets : List Target → List Target → Bool
unfolding same_keys
same_targets a b = same_keys (map target_key a) (map target_key b)

-- Where Run stands: before the snapshot; waiting for a first target; with a child for a set; waiting
-- out the back-off after a failure; ended.
pub data Place : Type 0 where
  at_top : Place
  idle : List Target → Place
  watching : List Target → Place
  backing_off : Place
  ended : Place

pub record Supervisor : Type 0 where
  pub targets : List Target
  -- Whether a signal stands in the channel, which holds one.
  pub changed : Bool
  pub place : Place

abbrev pub new_supervisor : Supervisor
new_supervisor = record { targets = []; changed = false; place = at_top }

unfoldable pub replace_targets : List Target → Supervisor → Supervisor
unfolding same_targets
replace_targets ts s =
    if same_targets s.targets ts then s else record s { targets = ts; changed = true }

-- The snapshot, and what follows it: an empty set is waited out.
unfoldable pub take_snapshot : Supervisor → Supervisor
take_snapshot s = record s {
  place = if is_empty s.targets then idle s.targets else watching s.targets;
}

pub data RunEvent : Type 0 where
  received_change : RunEvent
  child_failed : RunEvent
  backoff_over : RunEvent
  cancelled : RunEvent

-- A signal is received only when one is there.
abbrev pub take_signal : Supervisor → Supervisor
take_signal s = if s.changed then record s { changed = false; place = at_top } else s

-- One step of Run at a place.
abbrev pub step_at : Place → RunEvent → Supervisor → Supervisor
step_at at_top e s = take_snapshot s
step_at (idle ts) received_change s = take_signal s
step_at (idle ts) cancelled s = record s { place = ended }
step_at (idle ts) child_failed s = s
step_at (idle ts) backoff_over s = s
step_at (watching ts) received_change s = take_signal s
step_at (watching ts) cancelled s = record s { place = ended }
step_at (watching ts) child_failed s = record s { place = backing_off }
step_at (watching ts) backoff_over s = s
step_at backing_off backoff_over s = record s { place = at_top }
step_at backing_off cancelled s = record s { place = ended }
step_at backing_off received_change s = s
step_at backing_off child_failed s = s
step_at ended e s = s

unfoldable pub step_run : RunEvent → Supervisor → Supervisor
unfolding take_snapshot
step_run e s = step_at s.place e s

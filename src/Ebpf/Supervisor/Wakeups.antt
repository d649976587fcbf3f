-- ===== src/Ebpf/Supervisor/Wakeups.antt =====
-- About SetTargets and Run (internal/ebpf/supervisor.go): no change of the targets is missed.
use apm2go.Base.{
  List, [], ◌∷◌, Bool, true, false, if◌then◌else◌, is_empty, ◌≡◌, ◌⊎◌, inl, inr, refl,
}
use apm2go.Ebpf.Targets.{Target}
use apm2go.Ebpf.Supervisor.{
  same_targets, Place, at_top, idle, watching, backing_off, ended, Supervisor, new_supervisor,
  replace_targets, take_snapshot, RunEvent, received_change, child_failed, backoff_over, cancelled,
  take_signal, step_at, step_run,
}

-- What is done to a supervisor, in order.
pub data Deed : Type 0 where
  new_targets : List Target → Deed
  run_event : RunEvent → Deed

abbrev pub perform : Deed → Supervisor → Supervisor
perform (new_targets ts) s = replace_targets ts s
perform (run_event e) s = step_run e s

abbrev pub perform_all : List Deed → Supervisor → Supervisor
perform_all [] s = s
perform_all (d ∷ ds) s = perform_all ds (perform d s)

-- A set that Run waits with is the current one, or a signal is there to wake it.
abbrev pub IsAwake : Place → Supervisor → Type 0
IsAwake at_top s = Unit
IsAwake (idle ts) s = (ts ≡ s.targets) ⊎ (s.changed ≡ true)
IsAwake (watching ts) s = ((ts ≡ s.targets) ⊎ (s.changed ≡ true)) × (is_empty ts ≡ false)
IsAwake backing_off s = Unit
IsAwake ended s = Unit

IsAwake-signalled : (p : Place) (s t : Supervisor) → t.changed ≡ true → IsAwake p s → IsAwake p t
IsAwake-signalled at_top s t c h = tt
IsAwake-signalled (idle ts) s t c h = inr c
IsAwake-signalled (watching ts) s t c h = (inr c, h.1)
IsAwake-signalled backing_off s t c h = tt
IsAwake-signalled ended s t c h = tt

IsAwake-replace_targets :
    (ts : List Target) (s : Supervisor)
    → IsAwake s.place s
    → IsAwake (replace_targets ts s).place (replace_targets ts s)
unfolding replace_targets
IsAwake-replace_targets ts s h = go (same_targets s.targets ts)
  where
    go :
        (b : Bool)
        → IsAwake
            (if b then s else record s { targets = ts; changed = true }).place
            (if b then s else record s { targets = ts; changed = true })
    go true = h
    go false = IsAwake-signalled s.place s (record s { targets = ts; changed = true }) refl h

IsAwake-take_snapshot : (s : Supervisor) → IsAwake (take_snapshot s).place (take_snapshot s)
unfolding take_snapshot
IsAwake-take_snapshot s = go (is_empty s.targets) refl
  where
    go :
        (b : Bool)
        → is_empty s.targets ≡ b
        → IsAwake
            (if b then idle s.targets else watching s.targets)
            (record s { place = if b then idle s.targets else watching s.targets })
    go true e = inl refl
    go false e = (inl refl, e)

IsAwake-take_signal :
    (s : Supervisor) → IsAwake s.place s → IsAwake (take_signal s).place (take_signal s)
IsAwake-take_signal s h = go s.changed
  where
    go :
        (b : Bool)
        → IsAwake
            (if b then record s { changed = false; place = at_top } else s).place
            (if b then record s { changed = false; place = at_top } else s)
    go true = tt
    go false = h

IsAwake-step_at :
    (p : Place) (e : RunEvent) (s : Supervisor)
    → IsAwake s.place s
    → IsAwake (step_at p e s).place (step_at p e s)
IsAwake-step_at at_top e s h = IsAwake-take_snapshot s
IsAwake-step_at (idle ts) received_change s h = IsAwake-take_signal s h
IsAwake-step_at (idle ts) cancelled s h = tt
IsAwake-step_at (idle ts) child_failed s h = h
IsAwake-step_at (idle ts) backoff_over s h = h
IsAwake-step_at (watching ts) received_change s h = IsAwake-take_signal s h
IsAwake-step_at (watching ts) cancelled s h = tt
IsAwake-step_at (watching ts) child_failed s h = tt
IsAwake-step_at (watching ts) backoff_over s h = h
IsAwake-step_at backing_off backoff_over s h = tt
IsAwake-step_at backing_off cancelled s h = tt
IsAwake-step_at backing_off received_change s h = h
IsAwake-step_at backing_off child_failed s h = h
IsAwake-step_at ended e s h = h

IsAwake-perform :
    (d : Deed) (s : Supervisor) → IsAwake s.place s → IsAwake (perform d s).place (perform d s)
unfolding step_run
IsAwake-perform (new_targets ts) s h = IsAwake-replace_targets ts s h
IsAwake-perform (run_event e) s h = IsAwake-step_at s.place e s h

IsAwake-perform_all :
    (ds : List Deed) (s : Supervisor)
    → IsAwake s.place s
    → IsAwake (perform_all ds s).place (perform_all ds s)
IsAwake-perform_all [] s h = h
IsAwake-perform_all (d ∷ ds) s h = IsAwake-perform_all ds (perform d s) (IsAwake-perform d s h)

-- However calls of SetTargets interleave with the loop of Run, its failures and its restarts: while Run
-- waits, with a child or without, the set it waits with is the current one unless a signal is pending
-- that will wake it, and it has a child only for a set that is not empty.
pub run-IsAwake :
    (ds : List Deed) → IsAwake (perform_all ds new_supervisor).place (perform_all ds new_supervisor)
run-IsAwake ds = IsAwake-perform_all ds new_supervisor tt

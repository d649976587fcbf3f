-- ===== src/Inventory/Manager/Operator.antt =====
-- What an operator's requests meet: a pid's process, the manual switch, the order of the list and
-- the warnings of a process that waits.
use apm2go.Base.{
  ℕ, ◌+◌, ◌≤◌, ◌<◌, List, [], ◌∷◌, true, false, not, length, length-append, none, some, ◌≡◌, refl,
  ap, inl, inr, arith, Bool-cases, ◌==◌, ◌&&◌,
}
use apm2go.Base.Dict.{Dict, lookup, Unique}
use apm2go.Discovery.Filter.{accept}
use apm2go.Inventory.Types.{
  Jvm, Key, key_eq, key_beq, key_beq_iff, Entry, discovered, pending, no_reason, may_attach,
  attachable,
}
use apm2go.Inventory.Lifecycle.{
  Config, classify, refresh, is_exited, conflict_warning, listed_before, state_priority,
}
use apm2go.Inventory.Manager.{apply_manual, key_for_pid}

abbrev pub IsLive : ℕ → Entry → Type 0
IsLive pid e = (e.jvm.pid ≡ pid) × (is_exited e.state ≡ false)

elsewhere :
    (j k : Key) (m : Dict Key Entry) (x : Entry)
    → lookup j m ≡ none
    → lookup k m ≡ some x
    → key_beq j k ≡ false
elsewhere j k m x u l = elim (Bool-cases (key_beq j k)) [
  | inr other ↦ other
  | inl same ↦ cc (u, l, ap (λ c. lookup c m) ((key_beq_iff j k).0 same))
]

-- In a table with unique keys a pid resolves only to a live entry of that pid.
pub key_for_pid-IsLive :
    (pid : ℕ) (m : Dict Key Entry) (k : Key)
    → Unique m
    → key_for_pid pid m ≡ some k
    → (e : Entry) × (lookup k m ≡ some e) × IsLive pid e
unfolding key_for_pid lookup
key_for_pid-IsLive pid [] k u h = cc
key_for_pid-IsLive pid ((j, e) ∷ m) k u h =
    elim (Bool-cases (e.jvm.pid == pid && not (is_exited e.state))) [
      | inl here ↦
          (let q : j ≡ k = ground arith in
            (e, rw ((key_beq_iff j k).1 q) refl, (ground arith, ground arith)))
      | inr there ↦
          (let (x, l, live) = key_for_pid-IsLive pid m k u.1 (ground arith) in
            (x, rw (elsewhere j k m x u.0 l) l, live))
    ]

-- A pid resolves to nothing only if no entry of that pid is live.
pub key_for_pid-none :
    (pid : ℕ) (m : Dict Key Entry) (k : Key) (e : Entry)
    → key_for_pid pid m ≡ none
    → lookup k m ≡ some e
    → ¬ (IsLive pid e)
unfolding key_for_pid lookup
key_for_pid-none pid [] k e h l = cc
key_for_pid-none pid ((j, d) ∷ m) k e h l = elim (Bool-cases (key_beq j k)) [
  | inl same ↦ λ live. ground arith
  | inr other ↦ key_for_pid-none pid m k e (ground arith) (ground arith)
]

-- Switching automatic attaching off and on again gives a discovered entry, with no reason and not yet
-- manual, back as it was.
pub manual_round_trip :
    (e : Entry)
    → e.state ≡ discovered
    → e.reason ≡ no_reason
    → e.manual_only ≡ false
    → apply_manual false (apply_manual true e) ≡ e
unfolding apply_manual
manual_round_trip e s r f = ground arith

-- The order of the list respects the priorities of the states.
pub listed_before-priority :
    (a b : Entry) → listed_before a b ≡ true → state_priority a.state ≤ state_priority b.state
unfolding listed_before
listed_before-priority a b h = ground arith

-- The comparison that `List` sorts by is no strict weak order: of two discovered processes and a
-- pending one, the pending one ties with both, yet the later started comes before the other.
pub listed_before_not_weak :
    (a b c : Entry)
    → a.state ≡ discovered
    → b.state ≡ pending
    → c.state ≡ discovered
    → c.jvm.start_time < a.jvm.start_time
    → ((listed_before a b ≡ false) × (listed_before b a ≡ false))
      × ((listed_before b c ≡ false) × (listed_before c b ≡ false))
      × (listed_before a c ≡ true)
unfolding listed_before
listed_before_not_weak a b c ha hb hc h = ground arith

-- One JVM seen at the given times, each classifying the pending entry again.
abbrev pub sightings : Config → Jvm → List ℕ → Entry → Entry
sightings cfg j [] e = e
sightings cfg j (now ∷ nows) e = sightings cfg j nows (refresh cfg j now e)

abbrev pub AllEarly : Config → Jvm → List ℕ → Type 0
AllEarly cfg j [] = Unit
AllEarly cfg j (now ∷ nows) = (now < j.start_time + cfg.min_uptime) × AllEarly cfg j nows

refresh_early :
    (cfg : Config) (j : Jvm) (now : ℕ) (e : Entry)
    → accept cfg.filter j ≡ true
    → attachable j ≡ may_attach
    → j.already_instrumented ≡ true
    → 0 < j.start_time
    → now < j.start_time + cfg.min_uptime
    → e.state ≡ pending
    → ((refresh cfg j now e).state ≡ pending)
      × (length (refresh cfg j now e).warnings ≡ length e.warnings + 1)
unfolding refresh classify
refresh_early cfg j now e a v i p n s =
    ground (arith, length-append e.warnings (conflict_warning ∷ []))

-- A pending process that passes the filter, can be instrumented, has a known start and carries another
-- agent gains the same warning at every scan before it has run for the settling time.
pub pending_repeats_warning :
    (cfg : Config) (j : Jvm) (nows : List ℕ) (e : Entry)
    → accept cfg.filter j ≡ true
    → attachable j ≡ may_attach
    → j.already_instrumented ≡ true
    → 0 < j.start_time
    → AllEarly cfg j nows
    → e.state ≡ pending
    → length (sightings cfg j nows e).warnings ≡ length e.warnings + length nows
pending_repeats_warning cfg j [] e a v i p n s = omega arith
pending_repeats_warning cfg j (now ∷ nows) e a v i p n s =
    let (still, more) = refresh_early cfg j now e a v i p n.0 s in
    omega (arith, more, pending_repeats_warning cfg j nows (refresh cfg j now e) a v i p n.1 still)

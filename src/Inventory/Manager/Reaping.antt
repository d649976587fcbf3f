-- ===== src/Inventory/Manager/Reaping.antt =====
-- What a pass does to the processes that the scan did not find.
use apm2go.Base.{
  ℕ, ◌+◌, List, [], ◌∷◌, Bool, true, not, if◌then◌else◌, ltb, Option, none, some, ◌≡◌, refl, ◌∙◌,
  inl, inr, arith, Bool-cases, ap, subst,
}
use apm2go.Base.Dict.{Dict, lookup, contains, Unique}
use apm2go.Inventory.Types.{Key, key_eq, key_beq, key_beq_iff, Entry, exited}
use apm2go.Inventory.Bus.{Bus}
use apm2go.Inventory.Lifecycle.{is_exited, exited_retention}
use apm2go.Inventory.Manager.{Manager, reap_entry, keep, reap_all, reap_missing}

-- What becomes of an entry that was not seen: marked once, and dropped ten minutes after that.
abbrev pub reaped : ℕ → Entry → Option Entry
reaped now e =
    if not (is_exited e.state)
    then some (record e { state = exited; exited_at = now; next_attempt = 0 })
    else if ltb (e.exited_at + exited_retention) now
    then none
    else some e

abbrev pub after_pass : Bool → ℕ → Option Entry → Option Entry
after_pass seen now none = none
after_pass seen now (some e) = if seen then some e else reaped now e

reap_entry_lem : (now : ℕ) (k : Key) (e : Entry) (b : Bus) → (reap_entry now k e b).0 ≡ reaped now e
unfolding reap_entry
reap_entry_lem now k e b = ground arith

kept_lem :
    (seen : List Key) (now : ℕ) (k : Key) (e : Entry) (b : Bus)
    → (if contains k seen then (some e, b) else reap_entry now k e b).0
      ≡ after_pass (contains k seen) now (some e)
kept_lem seen now k e b = elim (Bool-cases (contains k seen)) [
  | inl s ↦ rw s refl
  | inr s ↦ rw s (reap_entry_lem now k e b)
]

lookup-keep :
    (k j : Key) (o : Option Entry) (m : Dict Key Entry)
    → (key_beq j k ≡ true → lookup k m ≡ none)
    → lookup k (keep j o m) ≡ (if key_beq j k then o else lookup k m)
unfolding lookup
lookup-keep k j none m h = ground arith
lookup-keep k j (some e) m h = ground arith

-- The entry of a key after the pass depends on its entry before it and on whether it was seen.
lookup-reap_all :
    (seen : List Key) (now : ℕ) (m : Dict Key Entry) (b : Bus) (k : Key)
    → Unique m
    → lookup k (reap_all seen now m b).0 ≡ after_pass (contains k seen) now (lookup k m)
unfolding reap_all lookup
lookup-reap_all seen now [] b k u = refl
lookup-reap_all seen now ((j, e) ∷ m) b k u =
    let here = if contains j seen then (some e, b) else reap_entry now j e b in
    let ih : lookup k (reap_all seen now m here.1).0
        ≡ after_pass (contains k seen) now (lookup k m) =
      lookup-reap_all seen now m here.1 k u.1 in
    let gone : key_beq j k ≡ true → lookup k m ≡ none =
      λ same. subst (λ x. lookup x m ≡ none) ((key_beq_iff j k).0 same) u.0 in
    lookup-keep k j here.0 (reap_all seen now m here.1).0
      (λ same. ih ∙ ap (after_pass (contains k seen) now) (gone same))
    ∙ elim (Bool-cases (key_beq j k)) [
      | inl same ↦ rw same (
          kept_lem seen now j e b
          ∙ ap (λ x. after_pass (contains x seen) now (some e)) ((key_beq_iff j k).0 same))
      | inr other ↦ rw other ih
    ]

Unique-keep :
    (j : Key) (o : Option Entry) (m : Dict Key Entry)
    → lookup j m ≡ none
    → Unique m
    → Unique (keep j o m)
Unique-keep j none m h u = u
Unique-keep j (some e) m h u = (h, u)

Unique-reap_all :
    (seen : List Key) (now : ℕ) (m : Dict Key Entry) (b : Bus)
    → Unique m
    → Unique (reap_all seen now m b).0
unfolding reap_all
Unique-reap_all seen now [] b u = tt
Unique-reap_all seen now ((j, e) ∷ m) b u =
    let here = if contains j seen then (some e, b) else reap_entry now j e b in
    Unique-keep j here.0 (reap_all seen now m here.1).0
      (lookup-reap_all seen now m here.1 j u.1 ∙ ap (after_pass (contains j seen) now) u.0)
      (Unique-reap_all seen now m here.1 u.1)

pub tasks-reap_missing :
    (seen : List Key) (now : ℕ) (m : Manager) → (reap_missing seen now m).tasks ≡ m.tasks
unfolding reap_missing
tasks-reap_missing seen now m = refl

pub Unique-reap_missing :
    (seen : List Key) (now : ℕ) (m : Manager)
    → Unique m.entries
    → Unique (reap_missing seen now m).entries
unfolding reap_missing
Unique-reap_missing seen now m u = Unique-reap_all seen now m.entries m.bus u

-- In a manager whose keys are unique, the end of a pass leaves every seen process as it was, marks
-- each unseen one as exited at this time with no retry due, keeps a marked one for ten minutes and
-- drops it after them.
pub lookup-reap_missing :
    (seen : List Key) (now : ℕ) (m : Manager) (k : Key)
    → Unique m.entries
    → lookup k (reap_missing seen now m).entries
      ≡ after_pass (contains k seen) now (lookup k m.entries)
unfolding reap_missing
lookup-reap_missing seen now m k u = lookup-reap_all seen now m.entries m.bus k u

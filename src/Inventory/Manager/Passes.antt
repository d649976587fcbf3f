-- ===== src/Inventory/Manager/Passes.antt =====
-- What the passes of the reconcile loop do with a process that is marked as exited.
use apm2go.Base.{
  ℕ, List, [], ◌∷◌, true, false, if◌then◌else◌, some, ◌≡◌, refl, sym, ◌∙◌, ap, subst, arith,
}
use apm2go.Base.Dict.{
  Dict, lookup, insert, contains, add, lookup-insert, contains-add, Unique, Unique-insert,
}
use apm2go.Inventory.Types.{Jvm, Key, key_eq, key_beq_iff, key, Entry, exited}
use apm2go.Inventory.Lifecycle.{Config, should_attach, refresh}
use apm2go.Inventory.Manager.{
  Manager, spawn, observe, listen, consider, reap_missing, reconcile, act,
}
use apm2go.Inventory.Manager.Reaping.{lookup-reap_missing, Unique-reap_missing, tasks-reap_missing}
use apm2go.Inventory.Manager.Retries.{observe_old}

consider_lem :
    (cfg : Config) (k : Key) (now : ℕ) (m : Manager) (e : Entry)
    → lookup k m.entries ≡ some e
    → consider cfg k now m ≡ (if should_attach cfg now e then spawn k m else m)
unfolding consider
consider_lem cfg k now m e h = rw (h, consider) refl

same_listen :
    (cfg : Config) (j : Jvm) (m : Manager)
    → ((listen cfg j m).entries ≡ m.entries) × ((listen cfg j m).tasks ≡ m.tasks)
unfolding listen
same_listen cfg j m = ground arith

lookup-insert_self : (k : Key) (e : Entry) (m : Dict Key Entry) → lookup k (insert k e m) ≡ some e
lookup-insert_self k e m = lookup-insert k k e m ∙ rw ((key_beq_iff k k).1 refl) refl

-- The pass that `reconcile` makes when the scan finds one process.
pass_one :
    (cfg : Config) (j : Jvm) (now : ℕ) (m : Manager)
    → reconcile cfg (j ∷ []) now m
      ≡ reap_missing
          (add (key j) [])
          now
          (consider cfg (key j) now (listen cfg j (observe cfg j now m)))
unfolding reconcile act
pass_one cfg j now m = refl

exited_kept :
    (cfg : Config) (j : Jvm) (now : ℕ) (e : Entry)
    → e.state ≡ exited
    → (refresh cfg j now e ≡ record e { jvm = j })
      × (should_attach cfg now (record e { jvm = j; last_seen = now }) ≡ false)
unfolding refresh should_attach
exited_kept cfg j now e x = ground arith

-- A process that is seen again after it was marked as exited: the entry stays as it is but for its
-- metadata, and no attach is started.
module _ (cfg : Config) (j : Jvm) (now : ℕ) (m : Manager) (e : Entry)
    (h : lookup (key j) m.entries ≡ some e) (x : e.state ≡ exited) where
  abbrev again : Entry
  again = record e { jvm = j; last_seen = now }

  abbrev sighted : Manager
  sighted = listen cfg j (observe cfg j now m)

  entries-sighted : sighted.entries ≡ insert (key j) again m.entries
  entries-sighted =
      (same_listen cfg j (observe cfg j now m)).0
      ∙ (observe_old cfg j now m e h).0
      ∙ ap (λ (d : Entry). insert (key j) (record d { last_seen = now }) m.entries)
          (exited_kept cfg j now e x).0

  lookup-sighted : lookup (key j) sighted.entries ≡ some again
  lookup-sighted = ap (lookup (key j)) entries-sighted ∙ lookup-insert_self (key j) again m.entries

  unspawned : consider cfg (key j) now sighted ≡ sighted
  unspawned =
      consider_lem cfg (key j) now sighted again lookup-sighted
      ∙ rw (exited_kept cfg j now e x).1 refl

  lookup-pass :
      Unique m.entries → lookup (key j) (reconcile cfg (j ∷ []) now m).entries ≡ some again
  lookup-pass u =
      ap (λ (n : Manager). lookup (key j) n.entries) (pass_one cfg j now m)
      ∙ lookup-reap_missing (add (key j) []) now (consider cfg (key j) now sighted) (key j)
          unique_sighted
      ∙ rw (unspawned, lookup-sighted, seen_self) refl
    where
      unique_sighted : Unique (consider cfg (key j) now sighted).entries
      unique_sighted =
          rw unspawned
            (subst Unique (sym entries-sighted) (Unique-insert (key j) again m.entries u))

      seen_self : contains (key j) (add (key j) []) ≡ true
      seen_self = contains-add (key j) (key j) [] ∙ rw ((key_beq_iff (key j) (key j)).1 refl) refl

  tasks-pass : (reconcile cfg (j ∷ []) now m).tasks ≡ m.tasks
  tasks-pass =
      ap (λ (n : Manager). n.tasks) (pass_one cfg j now m)
      ∙ tasks-reap_missing (add (key j) []) now (consider cfg (key j) now sighted)
      ∙ ap (λ (n : Manager). n.tasks) unspawned
      ∙ (same_listen cfg j (observe cfg j now m)).1
      ∙ (observe_old cfg j now m e h).1

  Unique-pass : Unique m.entries → Unique (reconcile cfg (j ∷ []) now m).entries
  Unique-pass u =
      rw (pass_one cfg j now m, unspawned)
        (Unique-reap_missing (add (key j) []) now sighted
          (subst Unique (sym entries-sighted) (Unique-insert (key j) again m.entries u)))

-- Passes at the given times, each finding this process.
abbrev pub passes : Config → Jvm → List ℕ → Manager → Manager
passes cfg j [] m = m
passes cfg j (now ∷ nows) m = passes cfg j nows (reconcile cfg (j ∷ []) now m)

-- In a manager whose keys are unique, a process that is marked as exited and that every later scan
-- finds, each finding only it, stays marked as exited, and no pass starts an attach to it.
pub exited_despite_sightings :
    (cfg : Config) (j : Jvm) (nows : List ℕ) (m : Manager) (e : Entry)
    → Unique m.entries
    → lookup (key j) m.entries ≡ some e
    → e.state ≡ exited
    → let n = passes cfg j nows m in
      ((d : Entry) × (lookup (key j) n.entries ≡ some d) × (d.state ≡ exited)) × (n.tasks ≡ m.tasks)
exited_despite_sightings cfg j [] m e u h x = ((e, h, x), refl)
exited_despite_sightings cfg j (now ∷ nows) m e u h x =
    let (kept, none_started) =
      exited_despite_sightings cfg j nows (reconcile cfg (j ∷ []) now m)
        (record e { jvm = j; last_seen = now }) (Unique-pass cfg j now m e h x u)
        (lookup-pass cfg j now m e h x u) x in
    (kept, none_started ∙ tasks-pass cfg j now m e h x)

-- ===== src/Inventory/Manager/Upkeep.antt =====
-- The retry budget: the manual switch and the end of a pass keep the invariant of the entries.
use apm2go.Base.{
  ℕ, ◌≤◌, List, Bool, Option, none, some, get_elem?, ◌≡◌, refl, sym, ◌∙◌, ap, subst, ◌⊎◌, inl, inr,
  arith, Option-cases,
}
use apm2go.Base.Dict.{lookup, insert, contains}
use apm2go.Inventory.Types.{Key, key_eq, Entry}
use apm2go.Inventory.Lifecycle.{Config}
use apm2go.Inventory.Manager.{Manager, apply_manual, key_for_pid, reap_missing, set_manual_only}
use apm2go.Inventory.Manager.Soundness.{
  apply_manual-IsSound, attempts-apply_manual, after_pass-IsSound,
}
use apm2go.Inventory.Manager.Reaping.{
  after_pass, Unique-reap_missing, lookup-reap_missing, tasks-reap_missing,
}
use apm2go.Inventory.Manager.Retries.{attempts_of, IsValid, Covers-mono, put_IsValid}

manual_cases :
    (pid : ℕ) (b : Bool) (m : Manager)
    → (set_manual_only pid b m ≡ m)
      ⊎ ((k : Key) × (e : Entry) × (lookup k m.entries ≡ some e)
          × ((set_manual_only pid b m).entries ≡ insert k (apply_manual b e) m.entries)
          × ((set_manual_only pid b m).tasks ≡ m.tasks))
unfolding set_manual_only
manual_cases pid b m = elim (Option-cases (key_for_pid pid m.entries)) [
  | inl no_key ↦ inl (rw (no_key, set_manual_only) refl)
  | inr (k, found) ↦ elim (Option-cases (lookup k m.entries)) [
    | inl no_entry ↦ inl (rw (found, set_manual_only) (rw (no_entry, set_manual_only) refl))
    | inr (e, old) ↦ inr (
      k,
      e,
      old,
      rw (found, set_manual_only) (rw (old, set_manual_only) refl),
      rw (found, set_manual_only) (rw (old, set_manual_only) refl),
    )
  ]
]

pub IsValid-manual :
    (cfg : Config) (pid : ℕ) (b : Bool) (m : Manager)
    → IsValid cfg m
    → IsValid cfg (set_manual_only pid b m)
IsValid-manual cfg pid b m v = elim (manual_cases pid b m) [
  | inl same ↦ subst (IsValid cfg) (sym same) v
  | inr (k, e, old, en, tn) ↦
      put_IsValid cfg k (apply_manual b e) m v (apply_manual-IsSound cfg b e (v.sound k e old))
        (rw old (omega (arith, attempts-apply_manual b e))) (set_manual_only pid b m) en tn
]

attempts-after_pass :
    (seen : Bool) (now : ℕ) (o : Option Entry) → attempts_of (after_pass seen now o) ≤ attempts_of o
attempts-after_pass seen now none = omega arith
attempts-after_pass seen now (some e) = ground arith

pub IsValid-reap :
    (cfg : Config) (seen : List Key) (now : ℕ) (m : Manager)
    → IsValid cfg m
    → IsValid cfg (reap_missing seen now m)
IsValid-reap cfg seen now m v = record {
  unique = Unique-reap_missing seen now m v.unique;
  sound = λ k e l.
      after_pass-IsSound cfg (contains k seen) now (lookup k m.entries) e (v.sound k)
        (sym (lookup-reap_missing seen now m k v.unique) ∙ l);
  captured = λ i t g.
      Covers-mono (attempts_of (lookup t.key m.entries)) _ t.phase
        (rw (lookup-reap_missing seen now m t.key v.unique)
          (attempts-after_pass (contains t.key seen) now (lookup t.key m.entries)))
        (v.captured i t (ap (λ ts. get_elem? ts i) (sym (tasks-reap_missing seen now m)) ∙ g));
}

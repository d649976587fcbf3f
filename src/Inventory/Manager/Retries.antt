-- ===== src/Inventory/Manager/Retries.antt =====
-- The retry budget over every interleaving: the invariant of all entries and of what the running
-- attaches have captured.
use apm2go.Base.{
  ℕ, zero, suc, ◌≤◌, List, [], ◌∷◌, ◌++◌, Option, none, some, get_elem?, ◌≡◌, refl, sym, ◌∙◌, ap,
  subst, ◌⊎◌, inl, inr, arith, Bool-cases, Option-cases,
}
use apm2go.Base.Dict.{lookup, insert, lookup-insert, Unique, Unique-insert}
use apm2go.Inventory.Types.{Jvm, Key, key_eq, key_beq, key_beq_iff, key, Entry}
use apm2go.Inventory.Lifecycle.{Config, classify, new_entry, refresh}
use apm2go.Inventory.Manager.{
  Phase, Task, Manager, clear_budget, key_for_pid, observe, consider, spawn, request_attach,
  starting, acquired, announcing, injecting, settled, leaving, finished,
}
use apm2go.Inventory.Manager.Soundness.{
  IsSound, new_entry-IsSound, refresh-IsSound, attempts-refresh, attempts-new_entry,
  clear_budget-IsSound,
}

abbrev pub attempts_of : Option Entry → ℕ
attempts_of none = 0
attempts_of (some e) = e.attempts

-- The attempt number that an attach carries is never behind the entry's count.
abbrev pub Covers : ℕ → Phase → Type 0
Covers n (announcing a j e) = n ≤ a
Covers n (injecting a j) = n ≤ a
Covers n _ = Unit

pub record IsValid (cfg : Config) (m : Manager) : Type 0 where
  pub unique : Unique m.entries
  pub sound : (k : Key) (e : Entry) → lookup k m.entries ≡ some e → IsSound cfg e
  pub captured :
      (i : ℕ) (t : Task)
      → get_elem? m.tasks i ≡ some t
      → Covers (attempts_of (lookup t.key m.entries)) t.phase

pub Covers-mono : (n n' : ℕ) (p : Phase) → n' ≤ n → Covers n p → Covers n' p
Covers-mono n n' (announcing a j e) h c = omega arith
Covers-mono n n' (injecting a j) h c = omega arith
Covers-mono n n' starting h c = tt
Covers-mono n n' acquired h c = tt
Covers-mono n n' (settled o t e) h c = tt
Covers-mono n n' (leaving o) h c = tt
Covers-mono n n' (finished o) h c = tt

-- A write of a sound entry that does not raise the count.
module _ (cfg : Config) (k : Key) (e : Entry) (m : Manager) where
  pub put-IsSound :
      IsValid cfg m
      → IsSound cfg e
      → (j : Key) (d : Entry) → lookup j (insert k e m.entries) ≡ some d
      → IsSound cfg d
  put-IsSound v s j d h = elim (Bool-cases (key_beq k j)) [
    | inl same ↦ subst (IsSound cfg) (ground (arith, lookup-insert k j e m.entries)) s
    | inr other ↦ v.sound j d (ground (arith, lookup-insert k j e m.entries))
  ]

  pub put_attempts :
      e.attempts ≤ attempts_of (lookup k m.entries)
      → (j : Key) → attempts_of (lookup j (insert k e m.entries)) ≤ attempts_of (lookup j m.entries)
  put_attempts h j = elim (Bool-cases (key_beq k j)) [
    | inl same ↦
        rw (lookup-insert k j e m.entries, same)
          (subst (λ x. e.attempts ≤ attempts_of (lookup x m.entries)) ((key_beq_iff k j).0 same) h)
    | inr other ↦ rw (lookup-insert k j e m.entries, other) (omega arith)
  ]

  pub put_IsValid :
      IsValid cfg m
      → IsSound cfg e
      → e.attempts ≤ attempts_of (lookup k m.entries)
      → (n : Manager) → n.entries ≡ insert k e m.entries
      → n.tasks ≡ m.tasks
      → IsValid cfg n
  put_IsValid v s h n en tn = record {
    unique = subst Unique (sym en) (Unique-insert k e m.entries v.unique);
    sound = λ j d l. put-IsSound v s j d (ap (lookup j) (sym en) ∙ l);
    captured = λ i t g.
        Covers-mono (attempts_of (lookup t.key m.entries)) (attempts_of (lookup t.key n.entries))
          t.phase (rw en (put_attempts h t.key))
          (v.captured i t (ap (λ ts. get_elem? ts i) (sym tn) ∙ g));
  }

pub observe_new :
    (cfg : Config) (j : Jvm) (now : ℕ) (m : Manager)
    → lookup (key j) m.entries ≡ none
    → ((observe cfg j now m).entries
        ≡ insert
            (key j)
            (record (classify cfg now (new_entry j now)) { last_seen = now })
            m.entries)
      × ((observe cfg j now m).tasks ≡ m.tasks)
unfolding observe
observe_new cfg j now m new = ground arith

pub observe_old :
    (cfg : Config) (j : Jvm) (now : ℕ) (m : Manager) (e : Entry)
    → lookup (key j) m.entries ≡ some e
    → ((observe cfg j now m).entries
        ≡ insert (key j) (record (refresh cfg j now e) { last_seen = now }) m.entries)
      × ((observe cfg j now m).tasks ≡ m.tasks)
unfolding observe
observe_old cfg j now m e old = ground arith

pub IsValid-observe :
    (cfg : Config) (j : Jvm) (now : ℕ) (m : Manager)
    → IsValid cfg m
    → IsValid cfg (observe cfg j now m)
IsValid-observe cfg j now m v = elim (Option-cases (lookup (key j) m.entries)) [
  | inl new ↦
      put_IsValid cfg (key j) _ m v (new_entry-IsSound cfg j now now)
        (omega (arith, attempts-new_entry cfg j now)) (observe cfg j now m)
        (observe_new cfg j now m new).0 (observe_new cfg j now m new).1
  | inr (e, old) ↦
      put_IsValid cfg (key j) _ m v (refresh-IsSound cfg j now now e (v.sound (key j) e old))
        (rw old (omega (arith, attempts-refresh cfg j now e))) (observe cfg j now m)
        (observe_old cfg j now m e old).0 (observe_old cfg j now m e old).1
]

-- Steps that leave entries alone and at most add a task that has captured nothing.
module _ (cfg : Config) (m n : Manager) (same : n.entries ≡ m.entries) where
  pub tasks_IsValid : n.tasks ≡ m.tasks → IsValid cfg m → IsValid cfg n
  tasks_IsValid tn v = record {
    unique = subst Unique (sym same) v.unique;
    sound = λ k e l. v.sound k e (ap (lookup k) (sym same) ∙ l);
    captured = λ i t g. rw same (v.captured i t (ap (λ ts. get_elem? ts i) (sym tn) ∙ g));
  }

get_elem?-snoc :
    (ts : List Task) (u : Task) (i : ℕ) (t : Task)
    → get_elem? (ts ++ u ∷ []) i ≡ some t
    → (get_elem? ts i ≡ some t) ⊎ (t ≡ u)
get_elem?-snoc [] u zero t h = ground arith
get_elem?-snoc [] u (suc i) t h = cc
get_elem?-snoc (x ∷ ts) u zero t h = inl h
get_elem?-snoc (x ∷ ts) u (suc i) t h = get_elem?-snoc ts u i t h

IsValid-spawn : (cfg : Config) (k : Key) (m : Manager) → IsValid cfg m → IsValid cfg (spawn k m)
unfolding spawn
IsValid-spawn cfg k m v = record {
  unique = v.unique;
  sound = v.sound;
  captured = λ i t g. elim (get_elem?-snoc m.tasks (record { key = k; phase = starting }) i t g) [
    | inl old ↦ v.captured i t old
    | inr new ↦
        subst (λ (u : Task). Covers (attempts_of (lookup u.key m.entries)) u.phase) (sym new) tt
  ];
}

pub consider_cases :
    (cfg : Config) (k : Key) (now : ℕ) (m : Manager)
    → (consider cfg k now m ≡ m) ⊎ (consider cfg k now m ≡ spawn k m)
unfolding consider
consider_cases cfg k now m = ground arith

request_cases :
    (pid : ℕ) (m : Manager)
    → (request_attach pid m ≡ m)
      ⊎ ((k : Key) × (e : Entry) × (lookup k m.entries ≡ some e)
          × (request_attach pid m
              ≡ spawn k (record m { entries = insert k (clear_budget e) m.entries })))
unfolding request_attach
request_cases pid m = elim (Option-cases (key_for_pid pid m.entries)) [
  | inl no_key ↦ inl (rw (no_key, request_attach) refl)
  | inr (k, found) ↦ elim (Option-cases (lookup k m.entries)) [
    | inl no_entry ↦ inl (rw (found, request_attach) (rw (no_entry, request_attach) refl))
    | inr (e, old) ↦ inr (k, e, old, rw (found, request_attach) (rw (old, request_attach) refl))
  ]
]

attempts-clear_budget : (e : Entry) → (clear_budget e).attempts ≡ 0
unfolding clear_budget
attempts-clear_budget e = refl

pub IsValid-consider :
    (cfg : Config) (k : Key) (now : ℕ) (m : Manager)
    → IsValid cfg m
    → IsValid cfg (consider cfg k now m)
IsValid-consider cfg k now m v = elim (consider_cases cfg k now m) [
  | inl same ↦ subst (IsValid cfg) (sym same) v
  | inr new ↦ subst (IsValid cfg) (sym new) (IsValid-spawn cfg k m v)
]

pub IsValid-request :
    (cfg : Config) (pid : ℕ) (m : Manager) → IsValid cfg m → IsValid cfg (request_attach pid m)
IsValid-request cfg pid m v = elim (request_cases pid m) [
  | inl same ↦ subst (IsValid cfg) (sym same) v
  | inr (k, e, found, new) ↦ subst (IsValid cfg) (sym new) (
      IsValid-spawn cfg k (record m { entries = insert k (clear_budget e) m.entries })
        (put_IsValid cfg k (clear_budget e) m v (clear_budget-IsSound cfg e (v.sound k e found))
          (omega (arith, attempts-clear_budget e))
          (record m { entries = insert k (clear_budget e) m.entries }) refl refl))
]

-- ===== src/Ingest/Tokens/Durability.antt =====
-- Issued tokens survive failures, crashes and restarts.
use apm2go.Base.{
  List, [], ◌∷◌, Bool, true, false, if◌then◌else◌, is_empty, Option, none, some, ◌≡◌, ◌≢◌, refl,
  sym, ap, subst, inl, inr, arith, Bool-cases,
}
use apm2go.Base.Eq.{Bytes, text_eq, bytes_eq_iff}
use apm2go.Base.Dict.{Dict, insert, erase}
use apm2go.Ingest.Tokens.{
  File, holds, Disk, Registry, new_persistent_registry, Stage, Fate, save_locked, recognises,
  accepts, World, restart, is_dead, issue, revoke, Action, act_issue, act_revoke, act_restart, act,
  run,
}
use apm2go.Ingest.Tokens.Saving.{
  save_stages_atomic, recognises-insert, recognises-erase, revoke_named, save_locked_saved,
}

abbrev OnDisk : Bytes → File → Type 0
OnDisk t f = (m : Dict Bytes Bytes) × (f ≡ holds m) × (recognises t m ≡ true)

-- The token is known in memory and to the next start.
record Kept (t : Bytes) (w : World) : Type 0 where
  backed : w.registry.persistent ≡ true
  in_memory : recognises t w.registry.valid ≡ true
  on_disk : OnDisk t w.disk.file

save_locked-OnDisk :
    (fate : Stage → Fate) (t : Bytes) (r : Registry) (d : Disk)
    → recognises t r.valid ≡ true
    → OnDisk t d.file
    → OnDisk t (save_locked fate r d).0.file
save_locked-OnDisk fate t r d h o = elim (Bool-cases r.persistent) [
  | inl yes_path ↦
      unfold save_locked in
      rw yes_path (elim (save_stages_atomic fate r.valid d).0 [
        | inl old ↦ subst (OnDisk t) (sym old) o
        | inr new ↦ (r.valid, new, h)
      ])
  | inr no_path ↦ unfold save_locked in rw no_path o
]

Kept-restart : (t : Bytes) (w : World) → Kept t w → Kept t (restart w)
unfolding restart new_persistent_registry
Kept-restart t w k =
    let (m, e, h) = k.on_disk in
    subst (Kept t) (sym (ap started e))
      (record { backed = refl; in_memory = h; on_disk = (m, e, h) })
  where
    started : File → World
    started f = elim (new_persistent_registry f) [
      | none ↦ record w { refused_start = true }
      | some r ↦ record w { registry = r }
    ]

Kept-if : (t : Bytes) (b : Bool) (w : World) → Kept t w → Kept t (if b then restart w else w)
Kept-if t true w k = Kept-restart t w k
Kept-if t false w k = k

Kept-issue :
    (t : Bytes) (fate : Stage → Fate) (token : Option Bytes) (service : Bytes) (w : World)
    → Kept t w
    → Kept t (issue fate token service w).0
unfolding issue
Kept-issue t fate none service w k = k
Kept-issue t fate (some token) service w k =
    let r = record w.registry { valid = insert token service w.registry.valid } in
    let h : recognises t r.valid ≡ true =
      ground (arith, recognises-insert t token service w.registry.valid, k.in_memory) in
    record {
      backed = k.backed;
      in_memory = h;
      on_disk = save_locked-OnDisk fate t r w.disk h k.on_disk;
    }

Kept-revoke :
    (t : Bytes) (fate : Stage → Fate) (token : Bytes) (w : World)
    → token ≢ t
    → Kept t w
    → Kept t (revoke fate token w).0
Kept-revoke t fate token w other k = elim (Bool-cases (is_empty token)) [
  | inl nothing ↦ unfold revoke in rw (nothing, revoke) k
  | inr some_token ↦
      let r = record w.registry { valid = erase token w.registry.valid } in
      let h : recognises t r.valid ≡ true = ground (
        arith,
        recognises-erase t token w.registry.valid,
        k.in_memory,
        bytes_eq_iff token t,
        other,
      ) in
      subst (Kept t) (sym (revoke_named fate token w some_token)) (record {
        backed = k.backed;
        in_memory = h;
        on_disk = save_locked-OnDisk fate t r w.disk h k.on_disk;
      })
]

-- None of the actions revokes the token.
abbrev pub Spares : Bytes → List Action → Type 0
Spares t [] = Unit
Spares t (act_revoke fate token ∷ as') = (token ≢ t) × Spares t as'
Spares t (_ ∷ as') = Spares t as'

Kept-run :
    (t : Bytes) (as' : List Action) (w : World) → Spares t as' → Kept t w → Kept t (run as' w)
unfolding run act
Kept-run t [] w s k = k
Kept-run t (act_issue fate token service ∷ as') w s k =
    Kept-run t as' _ s
      (Kept-if t (is_dead (issue fate token service w).2) _ (Kept-issue t fate token service w k))
Kept-run t (act_revoke fate token ∷ as') w s k =
    Kept-run t as' _ s.1
      (Kept-if t (is_dead (revoke fate token w).1) _ (Kept-revoke t fate token w s.0 k))
Kept-run t (act_restart ∷ as') w s k = Kept-run t as' _ s (Kept-restart t w k)

Kept-issued :
    (t : Bytes) (fate : Stage → Fate) (service : Bytes) (w : World)
    → w.registry.persistent ≡ true
    → (issue fate (some t) service w).1 ≡ some t
    → Kept t (issue fate (some t) service w).0
unfolding issue
Kept-issued t fate service w p h =
    let r = record w.registry { valid = insert t service w.registry.valid } in
    let known : recognises t r.valid ≡ true =
      ground (arith, recognises-insert t t service w.registry.valid, bytes_eq_iff t t) in
    record {
      backed = p;
      in_memory = known;
      on_disk = (r.valid, save_locked_saved fate r w.disk p (ground (arith, h)), known);
    }

-- A token that `Issue` of a registry with a file has returned is accepted ever after, until it is
-- revoked: whatever is issued and revoked besides, whichever saves fail, and however often the process
-- dies in the middle of one or is restarted; and it is accepted after one more restart.
pub issued_token_survives :
    (t : Bytes) (fate : Stage → Fate) (service : Bytes) (w : World) (as' : List Action)
    → is_empty t ≡ false
    → w.registry.persistent ≡ true
    → (issue fate (some t) service w).1 ≡ some t
    → Spares t as'
    → let w' = run as' (issue fate (some t) service w).0 in
      (accepts t w'.registry ≡ true) × (accepts t (restart w').registry ≡ true)
issued_token_survives t fate service w as' n p h s =
    let k = Kept-run t as' _ s (Kept-issued t fate service w p h) in
    unfold accepts in rw n (k.in_memory, (Kept-restart t _ k).in_memory)

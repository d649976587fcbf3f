-- ===== src/Ingest/Tokens/Saving.antt =====
-- A save under failures and crashes, and what inserting and erasing do to the known tokens.
use apm2go.Base.{
  [], ◌∷◌, true, false, ◌||◌, if◌then◌else◌, is_empty, ◌≡◌, refl, sym, ap, ◌∙◌, ◌⊎◌, inl, inr,
  arith, Bool-cases,
}
use apm2go.Base.Eq.{Bytes, ◌=?◌, text_eq, bytes_eq_iff}
use apm2go.Base.Dict.{Dict, insert, erase}
use apm2go.Ingest.Tokens.{
  holds, Disk, Registry, Stage, Fate, End, saved, refused, dead, effect, partial_effect,
  save_stages, stages, save_locked, recognises, World, is_saved, revoke,
}

-- `saveLocked` is atomic: whichever stage fails or is cut off by a crash, the file is what it was or
-- holds the whole new map, and it holds the new map if the save succeeded.
pub save_stages_atomic :
    (fate : Stage → Fate) (m : Dict Bytes Bytes) (d : Disk)
    → let r = save_stages fate m stages d in
      ((r.0.file ≡ d.file) ⊎ (r.0.file ≡ holds m)) × (r.1 ≡ saved → r.0.file ≡ holds m)
unfolding save_stages effect partial_effect
save_stages_atomic fate m d = ground arith

pub recognises-insert :
    (t k s : Bytes) (m : Dict Bytes Bytes)
    → recognises t (insert k s m) ≡ (k =? t || recognises t m)
unfolding recognises insert
recognises-insert t k s [] = refl
recognises-insert t k s ((j, v) ∷ m) =
    ground (arith, bytes_eq_iff j k, bytes_eq_iff k t, bytes_eq_iff j t, recognises-insert t k s m)

pub recognises-erase :
    (t k : Bytes) (m : Dict Bytes Bytes)
    → recognises t (erase k m) ≡ (if k =? t then false else recognises t m)
unfolding recognises erase
recognises-erase t k [] = ground arith
recognises-erase t k ((j, v) ∷ m) =
    ground (arith, bytes_eq_iff j k, bytes_eq_iff k t, bytes_eq_iff j t, recognises-erase t k m)

pub revoke_named :
    (fate : Stage → Fate) (token : Bytes) (w : World)
    → is_empty token ≡ false
    → let r = record w.registry { valid = erase token w.registry.valid } in
      (revoke fate token w).0 ≡ record w { registry = r; disk = (save_locked fate r w.disk).0 }
unfolding revoke
revoke_named fate token w h = rw (h, revoke) refl

pub saved_of : (e : End) → is_saved e ≡ true → e ≡ saved
saved_of saved h = refl
saved_of refused h = cc
saved_of dead h = cc

pub save_locked_saved :
    (fate : Stage → Fate) (r : Registry) (d : Disk)
    → r.persistent ≡ true
    → is_saved (save_locked fate r d).1 ≡ true
    → (save_locked fate r d).0.file ≡ holds r.valid
unfolding save_locked
save_locked_saved fate r d p h =
    rw (p, save_locked)
      ((save_stages_atomic fate r.valid d).1 (
        saved_of _ (
          ap (λ b. is_saved (if b then save_stages fate r.valid stages d else (d, saved)).1) (sym p)
          ∙ h)))

pub save_locked_file :
    (fate : Stage → Fate) (r : Registry) (d : Disk)
    → ((save_locked fate r d).0.file ≡ d.file) ⊎ ((save_locked fate r d).0.file ≡ holds r.valid)
unfolding save_locked
save_locked_file fate r d = elim (Bool-cases r.persistent) [
  | inl with_path ↦ rw (with_path, save_locked) (save_stages_atomic fate r.valid d).0
  | inr no_path ↦ rw (no_path, save_locked) (inl refl)
]

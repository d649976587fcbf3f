-- ===== src/Ingest/Tokens/Starts.antt =====
-- What a save leaves behind never keeps the next start from reading it.
use apm2go.Base.{
  List, [], ◌∷◌, Bool, true, false, if◌then◌else◌, is_empty, Option, none, some, ◌≡◌, sym, ◌∙◌,
  subst, ◌⊎◌, inl, inr, Bool-cases,
}
use apm2go.Base.Eq.{Bytes, text_eq}
use apm2go.Base.Dict.{Dict}
use apm2go.Ingest.Tokens.{
  missing, holds, Registry, new_persistent_registry, Stage, Fate, save_locked, World, restart,
  is_dead, issue, revoke, Action, act_issue, act_revoke, act_restart, act, run,
}
use apm2go.Ingest.Tokens.Saving.{revoke_named, save_locked_file}

abbrev CanStart : World → Type 0
CanStart w =
    ((w.disk.file ≡ missing) ⊎ ((m : Dict Bytes Bytes) × (w.disk.file ≡ holds m)))
    × (w.refused_start ≡ false)

CanStart-save :
    (fate : Stage → Fate) (r : Registry) (w : World)
    → CanStart w
    → CanStart (record w { registry = r; disk = (save_locked fate r w.disk).0 })
CanStart-save fate r w c = elim (save_locked_file fate r w.disk) [
  | inl old ↦ (elim c.0 [ inl e ↦ inl (old ∙ e) | inr (m, e) ↦ inr (m, old ∙ e) ], c.1)
  | inr new ↦ (inr (r.valid, new), c.1)
]

CanStart-restart : (w : World) → CanStart w → CanStart (restart w)
unfolding restart new_persistent_registry
CanStart-restart w (inl e, h) = rw (e, restart) (inl e, h)
CanStart-restart w (inr (m, e), h) = rw (e, restart) (inr (m, e), h)

CanStart-if : (b : Bool) (w : World) → CanStart w → CanStart (if b then restart w else w)
CanStart-if true w c = CanStart-restart w c
CanStart-if false w c = c

CanStart-issue :
    (fate : Stage → Fate) (token : Option Bytes) (service : Bytes) (w : World)
    → CanStart w
    → CanStart (issue fate token service w).0
unfolding issue
CanStart-issue fate none service w c = c
CanStart-issue fate (some token) service w c = CanStart-save fate _ w c

CanStart-revoke :
    (fate : Stage → Fate) (token : Bytes) (w : World)
    → CanStart w
    → CanStart (revoke fate token w).0
CanStart-revoke fate token w c = elim (Bool-cases (is_empty token)) [
  | inl nothing ↦ unfold revoke in rw (nothing, revoke) c
  | inr named ↦ subst CanStart (sym (revoke_named fate token w named)) (CanStart-save fate _ w c)
]

CanStart-run : (as' : List Action) (w : World) → CanStart w → CanStart (run as' w)
unfolding run act
CanStart-run [] w c = c
CanStart-run (act_issue fate token service ∷ as') w c =
    CanStart-run as' _ (
      CanStart-if (is_dead (issue fate token service w).2) _
        (CanStart-issue fate token service w c))
CanStart-run (act_revoke fate token ∷ as') w c =
    CanStart-run as' _
      (CanStart-if (is_dead (revoke fate token w).1) _ (CanStart-revoke fate token w c))
CanStart-run (act_restart ∷ as') w c = CanStart-run as' _ (CanStart-restart w c)

-- Whatever a registry that began without a file issues and revokes, whichever saves fail and wherever
-- the process dies, no later start is refused.
pub starts_never_refused :
    (w : World) (as' : List Action)
    → w.disk.file ≡ missing
    → w.refused_start ≡ false
    → (run as' w).refused_start ≡ false
starts_never_refused w as' e h = (CanStart-run as' w (inl e, h)).1

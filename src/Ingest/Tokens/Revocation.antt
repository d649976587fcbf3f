-- ===== src/Ingest/Tokens/Revocation.antt =====
-- Revoked tokens are refused.
use apm2go.Base.{true, false, is_empty, ◌≡◌, refl, sym, ap, ◌∙◌, inl, inr, arith, Bool-cases}
use apm2go.Base.Eq.{Bytes, text_eq, bytes_eq_iff}
use apm2go.Base.Dict.{Dict, erase}
use apm2go.Ingest.Tokens.{
  holds, Registry, new_persistent_registry, Stage, Fate, saved, save_locked, recognises, accepts,
  World, restart, is_saved, revoke,
}
use apm2go.Ingest.Tokens.Saving.{recognises-erase, revoke_named, save_locked_saved}

restart-holds :
    (w : World) (m : Dict Bytes Bytes) → w.disk.file ≡ holds m → (restart w).registry.valid ≡ m
unfolding restart new_persistent_registry
restart-holds w m e = rw (e, restart) refl

refuses_unrecognised :
    (t : Bytes) (r : Registry) → recognises t r.valid ≡ false → accepts t r ≡ false
unfolding accepts
refuses_unrecognised t r h = ground (arith, h)

module _ (t : Bytes) (fate : Stage → Fate) (w : World) where
  gone : recognises t (erase t w.registry.valid) ≡ false
  gone = ground (arith, recognises-erase t t w.registry.valid, bytes_eq_iff t t)

  abbrev forgetting : Registry
  forgetting = record w.registry { valid = erase t w.registry.valid }

  refused_later :
      is_empty t ≡ false
      → w.registry.persistent ≡ true
      → (revoke fate t w).1 ≡ saved
      → accepts t (restart (revoke fate t w).0).registry ≡ false
  refused_later named p s =
      let e : (revoke fate t w).0.disk.file ≡ holds forgetting.valid =
        ap (λ (v : World). v.disk.file) (revoke_named fate t w named)
        ∙ save_locked_saved fate forgetting w.disk p (ap is_saved (sym (revoke_end named) ∙ s)) in
      refuses_unrecognised t (restart (revoke fate t w).0).registry
        (ap (recognises t) (restart-holds (revoke fate t w).0 forgetting.valid e) ∙ gone)
    where
      revoke_end : is_empty t ≡ false → (revoke fate t w).1 ≡ (save_locked fate forgetting w.disk).1
      revoke_end h = unfold revoke in rw (h, revoke) refl

  refused_now : is_empty t ≡ false → accepts t (revoke fate t w).0.registry ≡ false
  refused_now named =
      refuses_unrecognised t (revoke fate t w).0.registry
        (ap (λ (v : World). recognises t v.registry.valid) (revoke_named fate t w named) ∙ gone)

-- After `Revoke` the registry refuses the token, and where the save succeeded the next start of a
-- registry with a file refuses it too.
pub revoked_token_refused :
    (t : Bytes) (fate : Stage → Fate) (w : World)
    → let r = revoke fate t w in
      (accepts t r.0.registry ≡ false)
      × (w.registry.persistent ≡ true → r.1 ≡ saved → accepts t (restart r.0).registry ≡ false)
revoked_token_refused t fate w = elim (Bool-cases (is_empty t)) [
  | inl nothing ↦ unfold accepts in rw nothing (refl, λ p s. refl)
  | inr named ↦ (refused_now t fate w named, refused_later t fate w named)
]

-- ===== src/Pipeline/Lane/Laws.antt =====
-- Nothing is lost, doubled or reordered in a lane.
use apm2go.Base.{
  ℕ, ◌+◌, ◌≤◌, List, [], ◌∷◌, ◌++◌, Bool, true, false, length, is_empty, length-append, append-nil,
  append_assoc, ◌≡◌, refl, sym, ap, ◌∙◌, inl, inr, arith, Bool-cases,
}
use apm2go.Pipeline.Lane.{Lane, new_lane, has_room, send, flush, take_next}

module _ {ℓ} {A : Type ℓ} where
  -- Everything that was handed to the writer, in order.
  abbrev pub handed : List (List A × Bool) → List A
  handed [] = []
  handed ((b, ok) ∷ cs) = b ++ handed cs

  pub record IsFaithful (l : Lane A) : Type ℓ where
    pub in_order : l.sent ≡ handed l.calls ++ (l.batch ++ l.queue)
    pub bounded : length l.queue ≤ l.capacity

  pub handed-append : (cs ds : List (List A × Bool)) → handed (cs ++ ds) ≡ handed cs ++ handed ds
  handed-append [] ds = refl
  handed-append ((b, ok) ∷ cs) ds =
      ap (λ r. b ++ r) (handed-append cs ds) ∙ sym (append_assoc b (handed cs) (handed ds))

module _ {ℓ} {A : Type ℓ} where
  pub IsFaithful-new : (capacity : ℕ) → IsFaithful (new_lane {A = A} capacity)
  unfolding new_lane
  IsFaithful-new capacity = record { in_order = refl; bounded = omega arith }

  pub IsFaithful-send :
      (a : A) (l : Lane A) → has_room l ≡ true → IsFaithful l → IsFaithful (send a l)
  unfolding send
  IsFaithful-send a l room f = record {
    in_order = rw f.in_order (simp append_assoc);
    bounded = ground (arith, length-append l.queue (a ∷ []), f.bounded);
  }

  pub flush_empty : (ok : Bool) (l : Lane A) → is_empty l.batch ≡ true → flush ok l ≡ l
  unfolding flush
  flush_empty ok l h = rw (h, flush) refl

  pub flush_full :
      (ok : Bool) (l : Lane A)
      → is_empty l.batch ≡ false
      → flush ok l ≡ record l { batch = []; calls = l.calls ++ (l.batch, ok) ∷ [] }
  unfolding flush
  flush_full ok l h = rw (h, flush) refl

  pub IsFaithful-flush : (ok : Bool) (l : Lane A) → IsFaithful l → IsFaithful (flush ok l)
  IsFaithful-flush ok l f = elim (Bool-cases (is_empty l.batch)) [
    | inl h ↦ rw (flush_empty ok l h) f
    | inr h ↦ rw (flush_full ok l h) (record {
      in_order = f.in_order ∙ simp (handed-append, append_assoc, append-nil);
      bounded = f.bounded;
    })
  ]

  pub batch-flush : (ok : Bool) (l : Lane A) → (flush ok l).batch ≡ []
  unfolding flush
  batch-flush ok l = ground arith

  pub rest-flush :
      (ok : Bool) (l : Lane A)
      → ((flush ok l).queue ≡ l.queue)
        × ((flush ok l).sent ≡ l.sent)
        × ((flush ok l).capacity ≡ l.capacity)
  unfolding flush
  rest-flush ok l = ground arith

  take-IsFaithful :
      (a : A) (rest : List A) (l : Lane A)
      → l.queue ≡ a ∷ rest
      → IsFaithful l
      → IsFaithful (take_next (a ∷ rest) l)
  take-IsFaithful a rest l q f = record {
    in_order = f.in_order ∙ rw q (simp append_assoc);
    bounded = let b = f.bounded in ground (arith, b);
  }

  take_any : (xs : List A) (l : Lane A) → l.queue ≡ xs → IsFaithful l → IsFaithful (take_next xs l)
  take_any [] l q f = f
  take_any (a ∷ rest) l q f = take-IsFaithful a rest l q f

  pub IsFaithful-take : (l : Lane A) → IsFaithful l → IsFaithful (take_next l.queue l)
  IsFaithful-take l f = take_any l.queue l refl f

  pub same-take :
      (xs : List A) (l : Lane A)
      → ((take_next xs l).sent ≡ l.sent)
        × ((take_next xs l).calls ≡ l.calls)
        × (length (take_next xs l).batch ≤ length l.batch + 1)
  same-take [] l = (refl, refl, omega arith)
  same-take (a ∷ rest) l = (refl, refl, omega (arith, length-append l.batch (a ∷ [])))

-- ===== src/Inventory/Bus/Safety.antt =====
-- The invariant of the bus, and what publication promises to each subscriber.
use apm2go.Base.{
  ℕ, ◌≤◌, ◌<◌, List, [], ◌∷◌, true, false, ltb, ◌≡◌, refl, ◌∙◌, sym, ◌⊎◌, inl, inr, arith,
  Bool-cases, subst, ltb→lt, ==_iff,
}
use apm2go.Base.Eq.{nat_eq, nat_beq}
use apm2go.Base.Dict.{lookup, contains, add, remove, lookup-insert, contains-add, contains-remove}
use apm2go.Inventory.Types.{Event}
use apm2go.Inventory.Bus.{
  Bus, subscriber_buffer, new_event_bus, subscribe, cancel, publish, receive, Op, op_subscribe,
  op_cancel, op_publish, op_receive, apply, run,
}
use apm2go.Inventory.Bus.Delivery.{
  is_open, depth, push_at, Distinct, is_open-push_at, depth-push_at, chans-send_all,
  faulted-send_all, subs-send_all, ids-send_all,
}

pub record IsValid (b : Bus) : Type 0 where
  pub fine : b.faulted ≡ false
  pub distinct : Distinct b.subs
  pub open_subs : (id : ℕ) → contains id b.subs ≡ true → is_open (lookup id b.chans) ≡ true
  pub issued : (id : ℕ) → contains id b.subs ≡ true → id < b.next_id
  pub stopped :
      (id : ℕ) → contains id b.cancelled ≡ true → (contains id b.subs ≡ false) × (id < b.next_id)
  pub bounded : (id : ℕ) → depth (lookup id b.chans) ≤ subscriber_buffer

pub new_event_bus-IsValid : IsValid new_event_bus
unfolding new_event_bus lookup contains
new_event_bus-IsValid = record {
  fine = refl;
  distinct = tt;
  open_subs = λ id h. cc;
  issued = λ id h. cc;
  stopped = λ id h. cc;
  bounded = λ id. omega arith;
}

-- The channels after a publication, subscriber by subscriber.
pub chans-publish :
    (ev : Event) (b : Bus) (id : ℕ)
    → IsValid b
    → lookup id (publish ev b).chans ≡ push_at ev (contains id b.subs) (lookup id b.chans)
unfolding publish
chans-publish ev b id v = chans-send_all ev b.subs b id v.distinct v.open_subs

publish-IsValid : (ev : Event) (b : Bus) → IsValid b → IsValid (publish ev b)
unfolding publish
publish-IsValid ev b v = record {
  fine = faulted-send_all ev b.subs b v.open_subs ∙ v.fine;
  distinct = rw (subs-send_all ev b.subs b) v.distinct;
  open_subs = λ id h. rw (chans-send_all ev b.subs b id v.distinct v.open_subs) (
      is_open-push_at ev (contains id b.subs) (lookup id b.chans)
      ∙ v.open_subs id (rw (subs-send_all ev b.subs b) at h));
  issued = λ id h. ground (arith, v.issued id, subs-send_all ev b.subs b, ids-send_all ev b.subs b);
  stopped =
      λ id h. ground (arith, v.stopped id, subs-send_all ev b.subs b, ids-send_all ev b.subs b);
  bounded = λ id.
      rw (chans-send_all ev b.subs b id v.distinct v.open_subs)
        (depth-push_at ev (contains id b.subs) (lookup id b.chans) (v.bounded id));
}

Distinct-add : (id : ℕ) (ids : List ℕ) → Distinct ids → Distinct (add id ids)
unfolding add
Distinct-add id ids d = elim (Bool-cases (contains id ids)) [
  | inl old ↦ rw old d
  | inr new ↦ rw new (new, d)
]

Distinct-remove : (id : ℕ) (ids : List ℕ) → Distinct ids → Distinct (remove id ids)
unfolding remove
Distinct-remove id [] d = tt
Distinct-remove id (x ∷ ids) d = elim (Bool-cases (nat_beq x id)) [
  | inl same ↦ rw same (Distinct-remove id ids d.1)
  | inr other ↦ rw other (ground (arith, contains-remove id x ids), Distinct-remove id ids d.1)
]

subscribe-IsValid : (b : Bus) → IsValid b → IsValid (subscribe b).0
unfolding subscribe
subscribe-IsValid b v = record {
  fine = v.fine;
  distinct = Distinct-add b.next_id b.subs v.distinct;
  open_subs =
      λ id h. rw lookup-insert (ground (arith, contains-add b.next_id id b.subs, v.open_subs id));
  issued = λ id h. ground (arith, contains-add b.next_id id b.subs, v.issued id);
  stopped = λ id h. ground (arith, contains-add b.next_id id b.subs, v.stopped id);
  bounded = λ id. rw lookup-insert (ground (arith, v.bounded id));
}

ids-receive :
    (id : ℕ) (b : Bus)
    → ((receive id b).0.subs ≡ b.subs)
      × ((receive id b).0.next_id ≡ b.next_id)
      × ((receive id b).0.cancelled ≡ b.cancelled)
unfolding receive
ids-receive id b = ground arith

receive-IsValid : (id : ℕ) (b : Bus) → IsValid b → IsValid (receive id b).0
unfolding receive
receive-IsValid id b v = record {
  fine = ground (arith, v.fine);
  distinct = subst Distinct (sym (ids-receive id b).0) v.distinct;
  open_subs = λ j h. grind (arith, lookup-insert, v.open_subs j, ==_iff id j);
  issued = λ j h. ground (arith, v.issued j, ids-receive id b);
  stopped = λ j h. ground (arith, v.stopped j, ids-receive id b);
  bounded = λ j. grind (arith, lookup-insert, v.bounded j, ==_iff id j);
}

-- What a cancel leaves of the subscriptions.
subs-cancel :
    (id : ℕ) (b : Bus) → ((cancel id b).subs ≡ b.subs) ⊎ ((cancel id b).subs ≡ remove id b.subs)
unfolding cancel
subs-cancel id b = ground arith

Distinct-cancel : (id : ℕ) (b : Bus) → Distinct b.subs → Distinct (cancel id b).subs
Distinct-cancel id b d = elim (subs-cancel id b) [
  | inl same ↦ subst Distinct (sym same) d
  | inr less ↦ subst Distinct (sym less) (Distinct-remove id b.subs d)
]

cancel-IsValid : (id : ℕ) (b : Bus) → id < b.next_id → IsValid b → IsValid (cancel id b)
unfolding cancel
cancel-IsValid id b known v = record {
  fine = ground (arith, v.fine, v.open_subs id);
  distinct = Distinct-cancel id b v.distinct;
  open_subs = λ j h. grind (arith, lookup-insert, v.open_subs j, ==_iff id j, contains-remove);
  issued = λ j h. grind (arith, v.issued j, ==_iff id j, contains-remove);
  stopped = λ j h. grind (
    arith,
    v.stopped j,
    v.issued j,
    ==_iff id j,
    contains-remove id j b.subs,
    contains-add id j b.cancelled,
  );
  bounded = λ j. grind (arith, lookup-insert, v.bounded j, ==_iff id j);
}

pub apply-IsValid : (op : Op) (b : Bus) → IsValid b → IsValid (apply op b)
unfolding apply
apply-IsValid op_subscribe b v = subscribe-IsValid b v
apply-IsValid (op_cancel id) b v = elim (Bool-cases (ltb id b.next_id)) [
  | inl known ↦ rw known (cancel-IsValid id b (ltb→lt id b.next_id known) v)
  | inr unknown ↦ rw unknown v
]
apply-IsValid (op_publish ev) b v = publish-IsValid ev b v
apply-IsValid (op_receive id) b v = receive-IsValid id b v

-- Every operation, in every order, keeps the invariant.
pub run-IsValid : (ops : List Op) (b : Bus) → IsValid b → IsValid (run ops b)
unfolding run
run-IsValid [] b v = v
run-IsValid (op ∷ ops) b v = run-IsValid ops (apply op b) (apply-IsValid op b v)

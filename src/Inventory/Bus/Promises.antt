-- ===== src/Inventory/Bus/Promises.antt =====
-- What the bus promises over every sequence of operations.
use apm2go.Base.{ℕ, ◌≤◌, List, [], ◌∷◌, true, false, Option, ◌≡◌, arith, ==_iff}
use apm2go.Base.Eq.{nat_eq}
use apm2go.Base.Dict.{lookup, contains, lookup-insert, contains-add}
use apm2go.Inventory.Types.{Event}
use apm2go.Inventory.Bus.{
  Chan, Bus, subscriber_buffer, new_event_bus, subscribe, cancel, publish, receive, Op,
  op_subscribe, op_cancel, op_publish, op_receive, apply, run,
}
use apm2go.Inventory.Bus.Delivery.{depth, push_at, ids-send_all}
use apm2go.Inventory.Bus.Safety.{
  IsValid, new_event_bus-IsValid, chans-publish, apply-IsValid, run-IsValid,
}

-- Whatever is subscribed, cancelled, published and received, in any order, no send meets a closed
-- channel, no channel is closed twice, and no channel holds more than 64 events.
pub run_safe :
    (ops : List Op)
    → ((run ops new_event_bus).faulted ≡ false)
      × ((id : ℕ) → depth (lookup id (run ops new_event_bus).chans) ≤ subscriber_buffer)
run_safe ops =
    let v : IsValid (run ops new_event_bus) = run-IsValid ops new_event_bus new_event_bus-IsValid in
    (v.fine, v.bounded)

-- After any operations a publication gives the event to each current subscriber whose channel has
-- room, drops it for each whose channel is full, and changes no other channel.
pub publish_reaches_subscribers :
    (ops : List Op) (ev : Event) (id : ℕ)
    → let b = run ops new_event_bus in
      lookup id (publish ev b).chans ≡ push_at ev (contains id b.subs) (lookup id b.chans)
publish_reaches_subscribers ops ev id =
    chans-publish ev (run ops new_event_bus) id
      (run-IsValid ops new_event_bus new_event_bus-IsValid)

depth-push_at-false : (ev : Event) (o : Option Chan) → depth (push_at ev false o) ≤ depth o
depth-push_at-false ev o = ground arith

cancelled-publish : (ev : Event) (b : Bus) → (publish ev b).cancelled ≡ b.cancelled
unfolding publish
cancelled-publish ev b = (ids-send_all ev b.subs b).1

apply_silent :
    (op : Op) (b : Bus) (id : ℕ)
    → IsValid b
    → contains id b.cancelled ≡ true
    → (contains id (apply op b).cancelled ≡ true)
      × (depth (lookup id (apply op b).chans) ≤ depth (lookup id b.chans))
unfolding apply subscribe receive cancel
apply_silent op_subscribe b id v h =
    (h, grind (arith, lookup-insert, v.stopped id, ==_iff b.next_id id))
apply_silent (op_cancel j) b id v h =
    (grind (arith, contains-add j id b.cancelled), grind (arith, lookup-insert, ==_iff j id))
apply_silent (op_publish ev) b id v h = (
  ground (arith, cancelled-publish ev b),
  rw (chans-publish ev b id v, (v.stopped id h).0) (depth-push_at-false ev (lookup id b.chans)),
)
apply_silent (op_receive j) b id v h = (ground arith, grind (arith, lookup-insert, ==_iff j id))

-- In a bus that meets the invariant, the channel of a subscription whose cancel function has run never
-- holds more events than it does then, whatever follows.
pub cancelled_stays_silent :
    (ops : List Op) (b : Bus) (id : ℕ)
    → IsValid b
    → contains id b.cancelled ≡ true
    → depth (lookup id (run ops b).chans) ≤ depth (lookup id b.chans)
unfolding run
cancelled_stays_silent [] b id v h = omega arith
cancelled_stays_silent (op ∷ ops) b id v h =
    let (still, less) = apply_silent op b id v h in
    omega (arith, less, cancelled_stays_silent ops (apply op b) id (apply-IsValid op b v) still)

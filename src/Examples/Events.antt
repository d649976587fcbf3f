-- ===== src/Examples/Events.antt =====
-- The event bus on a few subscriptions.
use apm2go.Base.{ℕ, List, [], ◌∷◌, true, false, ◌≤◌, ◌≡◌, refl}
use apm2go.Base.Eq.{nat_eq}
use apm2go.Base.Dict.{lookup, contains, add, remove, insert}
use apm2go.Inventory.Types.{discovered, ev_discovered, Event}
use apm2go.Inventory.Bus.{
  Bus, new_event_bus, subscriber_buffer, publish, subscribe, cancel, Op, op_subscribe, op_cancel,
  op_publish, op_receive, apply, run,
}
use apm2go.Inventory.Bus.Delivery.{depth, push_at}
use apm2go.Inventory.Bus.Promises.{run_safe, publish_reaches_subscribers}
use apm2go.Examples.Processes.{shop, entry_of}

abbrev seen : Event
seen = record { type = ev_discovered; entry = entry_of shop discovered }

-- Two subscribers, of which the first leaves twice.
abbrev leaving : List Op
leaving =
    op_subscribe
    ∷ op_subscribe
    ∷ op_publish seen
    ∷ op_cancel 0
    ∷ op_cancel 0
    ∷ op_publish seen
    ∷ op_receive 1
    ∷ []

run_safe_example :
    ((run leaving new_event_bus).faulted ≡ false)
    × ((id : ℕ) → depth (lookup id (run leaving new_event_bus).chans) ≤ subscriber_buffer)
run_safe_example = run_safe leaving

publish_reaches_subscribers_example :
    let b = run leaving new_event_bus in
    lookup 1 (publish seen b).chans ≡ push_at seen (contains 1 b.subs) (lookup 1 b.chans)
publish_reaches_subscribers_example = publish_reaches_subscribers leaving seen 1

abbrev after_leaving : Bus
after_leaving = run leaving new_event_bus

first_cancelled : contains 0 after_leaving.cancelled ≡ true
unfolding run apply new_event_bus subscribe cancel publish contains add remove lookup insert
first_cancelled = refl

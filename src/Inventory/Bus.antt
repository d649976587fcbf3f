-- ===== src/Inventory/Bus.antt =====
-- internal/inventory/events.go: the event bus. A subscription's id also names its channel, since
-- `subscribe` makes one channel to an id. `faulted` is set where Go would panic: a send on a closed
-- channel, or a second close.
pub mod Delivery
pub mod Safety
pub mod Promises
use apm2go.Base.{
  ℕ, ◌+◌, List, [], ◌∷◌, ◌++◌, Bool, true, false, if◌then◌else◌, ltb, length, Option, none, some,
}
use apm2go.Base.Eq.{nat_eq}
use apm2go.Base.Dict.{Dict, lookup, insert, contains, add, remove}
use apm2go.Inventory.Types.{Event}

pub record Chan : Type 0 where
  pub buffered : List Event
  pub closed : Bool

pub record Bus : Type 0 where
  pub next_id : ℕ
  -- The keys of `subs`.
  pub subs : List ℕ
  pub chans : Dict ℕ Chan
  -- The subscriptions whose `sync.Once` has run.
  pub cancelled : List ℕ
  pub faulted : Bool

abbrev pub subscriber_buffer : ℕ
subscriber_buffer = 64

unfoldable pub new_event_bus : Bus
new_event_bus = record { next_id = 0; subs = []; chans = []; cancelled = []; faulted = false }

unfoldable pub subscribe : Bus → Bus × ℕ
subscribe b =
    let id = b.next_id in
    (
      record b {
        next_id = id + 1;
        subs = add id b.subs;
        chans = insert id (record { buffered = []; closed = false }) b.chans;
      },
      id,
    )

close_chan : ℕ → Bus → Bus
close_chan id b = elim (lookup id b.chans) [
  | none ↦ record b { faulted = true }
  | some c ↦
      if c.closed
      then record b { faulted = true }
      else record b { chans = insert id (record c { closed = true }) b.chans }
]

-- The function that `subscribe` returns.
unfoldable pub cancel : ℕ → Bus → Bus
unfolding close_chan
cancel id b =
    if contains id b.cancelled
    then b
    else (let b' = record b { cancelled = add id b.cancelled } in
        if contains id b.subs then close_chan id (record b' { subs = remove id b.subs }) else b')

-- `select { case ch <- ev: default: }`
send : Event → ℕ → Bus → Bus
send ev id b = elim (lookup id b.chans) [
  | none ↦ record b { faulted = true }
  | some c ↦
      if c.closed
      then record b { faulted = true }
      else if ltb (length c.buffered) subscriber_buffer
      then record b { chans = insert id (record c { buffered = c.buffered ++ ev ∷ [] }) b.chans }
      else b
]

pub send_all : Event → List ℕ → Bus → Bus
send_all ev [] b = b
send_all ev (id ∷ ids) b = send_all ev ids (send ev id b)

unfoldable pub publish : Event → Bus → Bus
unfolding send_all send
publish ev b = send_all ev b.subs b

-- A subscriber takes the next event from its channel.
unfoldable pub receive : ℕ → Bus → Bus × Option Event
receive id b = elim (lookup id b.chans) [
  | none ↦ (b, none)
  | some c ↦ elim c.buffered [
    | [] ↦ (b, none)
    | ev ∷ rest ↦ (record b { chans = insert id (record c { buffered = rest }) b.chans }, some ev)
  ]
]

-- What the manager and the subscribers may do to a bus, in any order. A cancel function exists
-- only for an id that was issued.
pub data Op : Type 0 where
  op_subscribe : Op
  op_cancel : ℕ → Op
  op_publish : Event → Op
  op_receive : ℕ → Op

unfoldable pub apply : Op → Bus → Bus
unfolding subscribe cancel publish receive
apply op_subscribe b = (subscribe b).0
apply (op_cancel id) b = if ltb id b.next_id then cancel id b else b
apply (op_publish ev) b = publish ev b
apply (op_receive id) b = (receive id b).0

unfoldable pub run : List Op → Bus → Bus
run [] b = b
run (op ∷ ops) b = run ops (apply op b)

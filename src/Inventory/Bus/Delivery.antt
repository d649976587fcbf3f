-- ===== src/Inventory/Bus/Delivery.antt =====
-- What one publication does to every channel, and the invariant of the bus.
use apm2go.Base.{
  ℕ, ◌≤◌, List, [], ◌∷◌, ◌++◌, Bool, true, false, not, if◌then◌else◌, ltb, length, length-append,
  Option, none, some, ◌≡◌, refl, ◌∙◌, arith, ==_iff,
}
use apm2go.Base.Eq.{nat_eq, nat_beq}
use apm2go.Base.Dict.{lookup, contains, lookup-insert}
use apm2go.Inventory.Types.{Event}
use apm2go.Inventory.Bus.{Chan, Bus, subscriber_buffer, send, send_all}

abbrev pub is_open : Option Chan → Bool
is_open none = false
is_open (some c) = not c.closed

abbrev pub depth : Option Chan → ℕ
depth none = 0
depth (some c) = length c.buffered

-- A channel with one more event, if there is room for it.
abbrev pub push : Event → Chan → Chan
push ev c =
    if ltb (length c.buffered) subscriber_buffer
    then record c { buffered = c.buffered ++ ev ∷ [] }
    else c

abbrev pub push_at : Event → Bool → Option Chan → Option Chan
push_at ev true (some c) = some (push ev c)
push_at ev _ o = o

module _ (ev : Event) (id : ℕ) (b : Bus) where
  chans-send :
      (j : ℕ)
      → is_open (lookup id b.chans) ≡ true
      → lookup j (send ev id b).chans ≡ push_at ev (nat_beq id j) (lookup j b.chans)
  unfolding send
  chans-send j h = grind (arith, lookup-insert, ==_iff id j)

  faulted-send : is_open (lookup id b.chans) ≡ true → (send ev id b).faulted ≡ b.faulted
  unfolding send
  faulted-send h = ground arith

  subs-send : (send ev id b).subs ≡ b.subs
  unfolding send
  subs-send = ground arith

abbrev pub Distinct : List ℕ → Type 0
Distinct [] = Unit
Distinct (x ∷ xs) = (contains x xs ≡ false) × Distinct xs

-- Every listed id has an open channel.
abbrev AllOpen : List ℕ → Bus → Type 0
AllOpen ids b = (id : ℕ) → contains id ids ≡ true → is_open (lookup id b.chans) ≡ true

pub is_open-push_at :
    (ev : Event) (t : Bool) (o : Option Chan) → is_open (push_at ev t o) ≡ is_open o
is_open-push_at ev t o = ground arith

pub depth-push_at :
    (ev : Event) (t : Bool) (o : Option Chan)
    → depth o ≤ subscriber_buffer
    → depth (push_at ev t o) ≤ subscriber_buffer
depth-push_at ev true none h = h
depth-push_at ev false none h = h
depth-push_at ev false (some c) h = h
depth-push_at ev true (some c) h = ground (arith, length-append c.buffered (ev ∷ []))

contains_self : (x : ℕ) (xs : List ℕ) → contains x (x ∷ xs) ≡ true
unfolding contains
contains_self x xs = ground arith

contains-tail : (x y : ℕ) (xs : List ℕ) → contains x xs ≡ true → contains x (y ∷ xs) ≡ true
unfolding contains
contains-tail x y xs h = ground arith

AllOpen-send :
    (ev : Event) (x : ℕ) (ids : List ℕ) (b : Bus) → AllOpen (x ∷ ids) b → AllOpen ids (send ev x b)
AllOpen-send ev x ids b h id m =
    rw (chans-send ev x b id (h x (contains_self x ids)))
      (is_open-push_at ev (nat_beq x id) (lookup id b.chans) ∙ h id (contains-tail id x ids m))

pub chans-send_all :
    (ev : Event) (ids : List ℕ) (b : Bus) (j : ℕ)
    → Distinct ids
    → AllOpen ids b
    → lookup j (send_all ev ids b).chans ≡ push_at ev (contains j ids) (lookup j b.chans)
unfolding send_all contains
chans-send_all ev [] b j d h = ground arith
chans-send_all ev (x ∷ ids) b j d h =
    chans-send_all ev ids (send ev x b) j d.1 (AllOpen-send ev x ids b h)
    ∙ ground (arith, chans-send ev x b j (h x (contains_self x ids)), ==_iff x j)

pub faulted-send_all :
    (ev : Event) (ids : List ℕ) (b : Bus) → AllOpen ids b → (send_all ev ids b).faulted ≡ b.faulted
unfolding send_all
faulted-send_all ev [] b h = refl
faulted-send_all ev (x ∷ ids) b h =
    faulted-send_all ev ids (send ev x b) (AllOpen-send ev x ids b h)
    ∙ faulted-send ev x b (h x (contains_self x ids))

pub subs-send_all : (ev : Event) (ids : List ℕ) (b : Bus) → (send_all ev ids b).subs ≡ b.subs
unfolding send_all
subs-send_all ev [] b = refl
subs-send_all ev (x ∷ ids) b = subs-send_all ev ids (send ev x b) ∙ subs-send ev x b

ids-send :
    (ev : Event) (id : ℕ) (b : Bus)
    → ((send ev id b).next_id ≡ b.next_id) × ((send ev id b).cancelled ≡ b.cancelled)
unfolding send
ids-send ev id b = ground arith

pub ids-send_all :
    (ev : Event) (ids : List ℕ) (b : Bus)
    → ((send_all ev ids b).next_id ≡ b.next_id) × ((send_all ev ids b).cancelled ≡ b.cancelled)
unfolding send_all
ids-send_all ev [] b = (refl, refl)
ids-send_all ev (x ∷ ids) b = ground (arith, ids-send ev x b, ids-send_all ev ids (send ev x b))

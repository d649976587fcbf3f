-- ===== src/Ingest/Binder.antt =====
-- internal/receiver/binder.go: the addresses that ingest listens on. Whether the system grants a
-- `net.Listen` is an input; `tried` is the history of the addresses that were asked for, latest first.
use apm2go.Base.{
  ℕ, ◌+◌, List, [], ◌∷◌, ◌++◌, Bool, true, false, not, ◌||◌, if◌then◌else◌, is_empty, Option, none,
  some, ◌≡◌, arith, inl, inr, Bool-cases, Option-cases,
}
use apm2go.Base.Eq.{Bytes, codes, bytes_eq, bytes_eq_iff, text_eq}
use apm2go.Base.Dict.{Dict, lookup, insert, lookup-insert}
use apm2go.Base.Text.{has_byte}

pub data ContainerBind : Type 0 where
  bind_off bind_auto bind_all : ContainerBind

pub record Binder : Type 0 where
  pub mode : ContainerBind
  pub port : Bytes
  -- Whether the address has a listener; `false` where the attempt failed.
  pub bound : Dict Bytes Bool
  pub tried : List Bytes

-- newBinder, for an address that was split and granted.
unfoldable pub new_binder : ContainerBind → Bytes → Bytes → Binder
new_binder mode port addr = record {
  mode = mode;
  port = port;
  bound = (addr, true) ∷ [];
  tried = addr ∷ [];
}

-- net.JoinHostPort: a host with a colon goes into brackets.
unfoldable pub join_host_port : Bytes → Bytes → Bytes
join_host_port host port =
    if has_byte 58 host
    then codes "[" ++ (host ++ (codes "]:" ++ port))
    else host ++ (codes ":" ++ port)

abbrev pub is_auto : ContainerBind → Bool
is_auto bind_auto = true
is_auto _ = false

-- What `listenOn` returns: nothing, a new listener, or an error.
pub data Answer : Type 0 where
  nothing_new listener listen_failed : Answer

-- Behind the guards, at an address.
unfoldable pub listen_at : Bool → Bytes → Binder → Binder × Answer
listen_at granted addr b = elim (lookup addr b.bound) [
  | some _ ↦ (b, nothing_new)
  | none ↦ (
    record b { bound = insert addr granted b.bound; tried = addr ∷ b.tried },
    if granted then listener else listen_failed,
  )
]

unfoldable pub listen_on : Bool → Bytes → Binder → Binder × Answer
listen_on granted host b =
    if not (is_auto b.mode) || is_empty host
    then (b, nothing_new)
    else listen_at granted (join_host_port host b.port) b

-- The gateways that the discovery passes report, each with what the system says to it.
unfoldable pub listen_on_all : List (Bytes × Bool) → Binder → Binder
listen_on_all [] b = b
listen_on_all ((host, granted) ∷ rest) b = listen_on_all rest (listen_on granted host b).0

-- resolveListenAddr, of an address with that port.
unfoldable pub resolve_listen_addr : ContainerBind → Bytes → Bytes → Bytes
unfolding join_host_port
resolve_listen_addr bind_all addr port = join_host_port (codes "0.0.0.0") port
resolve_listen_addr _ addr port = addr

-- How often an address was asked for.
abbrev pub times : Bytes → List Bytes → ℕ
times addr [] = 0
times addr (a ∷ as') = let rest = times addr as' in if bytes_eq a addr then rest + 1 else rest

abbrev pub is_known : Option Bool → Bool
is_known none = false
is_known (some _) = true

-- An address is known exactly if it was asked for, and then it was asked for once.
abbrev AskedOnce : Binder → Type 0
AskedOnce b =
    (addr : Bytes) → times addr b.tried ≡ (if is_known (lookup addr b.bound) then 1 else 0)

AskedOnce-at :
    (granted : Bool) (addr : Bytes) (b : Binder)
    → AskedOnce b
    → AskedOnce (listen_at granted addr b).0
unfolding listen_at
AskedOnce-at granted addr b h a = elim (Option-cases (lookup addr b.bound)) [
  | inl fresh ↦
      rw (fresh, listen_at)
        (ground
          (arith, lookup-insert addr a granted b.bound, h a, h addr, bytes_eq_iff addr a, fresh))
  | inr (x, old) ↦ rw (old, listen_at) (h a)
]

AskedOnce-on :
    (granted : Bool) (host : Bytes) (b : Binder)
    → AskedOnce b
    → AskedOnce (listen_on granted host b).0
AskedOnce-on granted host b h = elim (Bool-cases (not (is_auto b.mode) || is_empty host)) [
  | inl skipped ↦ unfold listen_on in rw (skipped, listen_on) h
  | inr tries ↦
      unfold listen_on in
      rw (tries, listen_on) (AskedOnce-at granted (join_host_port host b.port) b h)
]

AskedOnce-all :
    (hosts : List (Bytes × Bool)) (b : Binder) → AskedOnce b → AskedOnce (listen_on_all hosts b)
unfolding listen_on_all
AskedOnce-all [] b h = h
AskedOnce-all ((host, granted) ∷ rest) b h = AskedOnce-all rest _ (AskedOnce-on granted host b h)

AskedOnce-new : (mode : ContainerBind) (port addr : Bytes) → AskedOnce (new_binder mode port addr)
unfolding new_binder lookup
AskedOnce-new mode port addr a = ground arith

-- Whatever gateways are reported to a new binder, however often, and whatever the system grants, each
-- address is asked for at most once, and it is asked for exactly if the binder has an entry for it.
pub asks_once :
    (mode : ContainerBind) (port addr : Bytes) (hosts : List (Bytes × Bool)) (a : Bytes)
    → let b = listen_on_all hosts (new_binder mode port addr) in
      times a b.tried ≡ (if is_known (lookup a b.bound) then 1 else 0)
asks_once mode port addr hosts a =
    AskedOnce-all hosts (new_binder mode port addr) (AskedOnce-new mode port addr) a

-- ===== src/Diag/Deadlock/Sound.antt =====
-- About inferDeadlocks (internal/jvmdiag/threaddump.go): what the reported lists are.
use apm2go.Base.{
  ℕ, suc, ◌+◌, ◌≤◌, ◌<◌, List, [], ◌∷◌, if◌then◌else◌, Option, none, some, length, is_empty,
  get_elem?, ◌≡◌, refl, ap, ◌∙◌, ◌⊎◌, inl, inr, arith, Bool-cases, Option-cases,
}
use apm2go.Base.Eq.{Bytes, nat_eq, text_eq}
use apm2go.Base.Dict.{Dict, lookup, insert, lookup-insert}
use apm2go.Diag.Deadlock.{
  Thread, Mark, unvisited, on_stack, done, Marks, Walk, walk, found, from_node, mark_all,
  visit_from, own_all, owners_from, owner_of, other_owner, waits_for,
}
use apm2go.Diag.Deadlock.Walking.{
  NoStack, IsWalk, IsWalk-start, Stopped, walk_lem, free-le, mark_all_lem,
}

-- The three turns of the outer loop.
pub turn_cases :
    (succ : ℕ → Option ℕ) (fuel start : ℕ) (mark : Marks)
    → NoStack mark
    → (((visit_from succ fuel start mark) ≡ (mark, [])) × (mark start ≡ done))
      ⊎ ((mark start ≡ unvisited)
          × (visit_from succ fuel start mark ≡ (
              let w = walk succ fuel (record { mark = mark; path = []; node = some start }) in
              (mark_all w.path w.mark, found w))))
unfolding visit_from
turn_cases succ fuel start mark clear = go (mark start) refl
  where
    at_start : Mark → Marks × List (List ℕ)
    at_start m = elim m [
      | unvisited ↦
          (let w = walk succ fuel (record { mark = mark; path = []; node = some start }) in
            (mark_all w.path w.mark, found w))
      | on_stack ↦ (mark, [])
      | done ↦ (mark, [])
    ]

    go :
        (m : Mark)
        → mark start ≡ m
        → (((visit_from succ fuel start mark) ≡ (mark, [])) × (mark start ≡ done))
          ⊎ ((mark start ≡ unvisited)
              × (visit_from succ fuel start mark ≡ (
                  let w = walk succ fuel (record { mark = mark; path = []; node = some start }) in
                  (mark_all w.path w.mark, found w))))
    go unvisited e = inr (e, ap at_start e)
    go on_stack e = absurd (clear start e)
    go done e = inl (ap at_start e, e)

-- How a walk that stopped ends.
pub data Ends (w : Walk) : Type 0 where
  off : w.node ≡ none → found w ≡ [] → Ends w
  met : (n : ℕ) → w.node ≡ some n → w.mark n ≡ done → found w ≡ [] → Ends w
  closed :
      (n : ℕ) → w.node ≡ some n → w.mark n ≡ on_stack → found w ≡ from_node n w.path ∷ [] → Ends w

pub ends : (w : Walk) → Stopped w → Ends w
unfolding found
ends w stop = elim (Option-cases w.node) [
  | inl e ↦ off e (ap at_node e)
  | inr (n, e) ↦ go n e (w.mark n) refl
]
  where
    at_mark : ℕ → Mark → List (List ℕ)
    at_mark n m = elim m [ unvisited ↦ [] | on_stack ↦ from_node n w.path ∷ [] | done ↦ [] ]

    at_node : Option ℕ → List (List ℕ)
    at_node o = elim o [ none ↦ [] | some n ↦ at_mark n (w.mark n) ]

    go : (n : ℕ) → w.node ≡ some n → (m : Mark) → w.mark n ≡ m → Ends w
    go n e unvisited h = absurd (stop n e h)
    go n e on_stack h = closed n e h (ap at_node e ∙ ap (at_mark n) h)
    go n e done h = met n e h (ap at_node e ∙ ap (at_mark n) h)

module _ (succ : ℕ → Option ℕ) where
  pub NoStack-after :
      (mark : Marks) (w : Walk)
      → NoStack mark
      → IsWalk succ mark w
      → NoStack (mark_all w.path w.mark)
  NoStack-after mark w clear i k = ground (arith, mark_all_lem w.path w.mark k, i.marked k, clear k)

module _ (succ : ℕ → Option ℕ) (bound : ℕ) (within : (n m : ℕ) → succ n ≡ some m → m < bound) where
  -- The walk from a start below the bound.
  pub walk_from :
      (start : ℕ) (mark : Marks)
      → start < bound
      → let w = walk succ (suc bound) (record { mark = mark; path = []; node = some start }) in
        IsWalk succ mark w × Stopped w
  walk_from start mark h =
      walk_lem succ bound within mark (suc bound)
        (record { mark = mark; path = []; node = some start }) (omega (arith, free-le bound mark))
        (λ n e. ground (arith, e, h)) (IsWalk-start succ mark start)

-- The owners are threads of the dump.
abbrev pub Below : ℕ → Dict Bytes ℕ → Type 0
Below b m = (k : Bytes) (n : ℕ) → lookup k m ≡ some n → n < b

own_all-Below :
    (b i : ℕ) (addrs : List Bytes) (m : Dict Bytes ℕ)
    → i < b
    → Below b m
    → Below b (own_all i addrs m)
unfolding own_all
own_all-Below b i [] m h o = o
own_all-Below b i (addr ∷ addrs) m h o =
    own_all-Below b i addrs (insert addr i m) h
      (λ k n e. ground (arith, lookup-insert addr k i m, o k n, e))

owners_from-Below :
    (b i : ℕ) (ts : List Thread) (m : Dict Bytes ℕ)
    → i + length ts ≤ b
    → Below b m
    → Below b (owners_from i ts m)
unfolding owners_from
owners_from-Below b i [] m h o = o
owners_from-Below b i (t ∷ ts) m h o =
    owners_from-Below b (suc i) ts (own_all i t.holds m) (omega arith)
      (own_all-Below b i t.holds m (omega arith) o)

pub waits_for-lt-length :
    (threads : List Thread) (n m : ℕ) → waits_for threads n ≡ some m → m < length threads
unfolding waits_for owner_of lookup
waits_for-lt-length threads n m h = go (get_elem? threads n) h
  where
    owned : Below (length threads) (owners_from 0 threads [])
    owned = owners_from-Below (length threads) 0 threads [] (omega arith) (λ k i e. cc)

    from_owner :
        (t : Thread) (o : Option ℕ)
        → lookup t.waiting_on (owners_from 0 threads []) ≡ o
        → other_owner n o ≡ some m
        → m < length threads
    from_owner t none e w = absurd (ground (arith, w))
    from_owner t (some k) e w = ground (arith, owned t.waiting_on k e)

    go :
        (o : Option Thread)
        → elim o [
          | none ↦ none
          | some t ↦
              if is_empty t.waiting_on
              then none
              else other_owner n (lookup t.waiting_on (owners_from 0 threads []))
        ]
          ≡ some m
        → m < length threads
    go none w = cc
    go (some t) w = elim (Bool-cases (is_empty t.waiting_on)) [
      | inl e ↦ ground (arith, e, w)
      | inr e ↦
          from_owner t (lookup t.waiting_on (owners_from 0 threads [])) refl (ground (arith, e, w))
    ]

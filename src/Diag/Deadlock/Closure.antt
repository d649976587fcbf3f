-- ===== src/Diag/Deadlock/Closure.antt =====
-- About inferDeadlocks (internal/jvmdiag/threaddump.go): sets of threads closed under waiting.
use apm2go.Base.{
  ℕ, zero, suc, List, [], ◌∷◌, ◌++◌, true, ◌==◌, ==_iff, Option, none, some, any, ◌≡◌, refl, sym,
  ap, ◌∙◌, subst, ◌⊎◌, inl, inr, arith, Bool-cases,
}
use apm2go.Base.Eq.{nat_eq}
use apm2go.Base.Dict.{contains}
use apm2go.Diag.Deadlock.{done, Marks, Walk, visit, walk, from_node}
use apm2go.Diag.Deadlock.Cycle.{IsChain, IsCycle, next, OnCycle, head_or}
use apm2go.Diag.Deadlock.Walking.{NoStack, test_cases, walk_visits, walk_stops}

-- Some of the lists holds the node.
abbrev pub Reported : ℕ → List (List ℕ) → Type 0
Reported n cs = any (contains n) cs ≡ true

pub Reported-append :
    (n : ℕ) (cs ds : List (List ℕ)) → Reported n cs ⊎ Reported n ds → Reported n (cs ++ ds)
Reported-append n [] ds (inl h) = cc
Reported-append n [] ds (inr h) = h
Reported-append n (c ∷ cs) ds h = ground (arith, Reported-append n cs ds)

only : (x n : ℕ) → contains n (x ∷ []) ≡ true → x ≡ n
unfolding contains
only x n h = ground (arith, h, ==_iff x n)

-- A node of a chain leads to another one of it, or to where the chain leads.
pub chain_next :
    (succ : ℕ → Option ℕ) (n m : ℕ) (xs : List ℕ) (e : Option ℕ)
    → contains n xs ≡ true
    → IsChain succ xs e
    → succ n ≡ some m
    → (contains m xs ≡ true) ⊎ (e ≡ some m)
unfolding contains
chain_next succ n m [] e h c s = cc
chain_next succ n m (x ∷ []) e h c s = inr (sym c.0 ∙ ap succ (only x n h) ∙ s)
chain_next succ n m (x ∷ y ∷ r) e h c s = elim (Bool-cases (x == n)) [
  | inl here ↦ inl (ground (arith, sym c.0 ∙ ap succ ((==_iff x n).0 here) ∙ s))
  | inr there ↦ ground (arith, chain_next succ n m (y ∷ r) e (ground (arith, h)) c.1 s)
]

pub contains-from_node :
    (n : ℕ) (xs : List ℕ) → contains n xs ≡ true → contains n (from_node n xs) ≡ true
unfolding contains from_node
contains-from_node n [] h = cc
contains-from_node n (x ∷ xs) h = ground (arith, contains-from_node n xs)

has_edge :
    (succ : ℕ → Option ℕ) (n k : ℕ) (xs : List ℕ)
    → contains n xs ≡ true
    → IsChain succ xs (some k)
    → (m : ℕ) × (succ n ≡ some m)
unfolding contains
has_edge succ n k [] h c = cc
has_edge succ n k (x ∷ xs) h c = elim (Bool-cases (x == n)) [
  | inl here ↦ (let (m, e) = head_edge xs in (m, sym (ap succ ((==_iff x n).0 here)) ∙ c.0 ∙ e))
  | inr there ↦ has_edge succ n k xs (ground (arith, h)) c.1
]
  where
    head_edge : (ys : List ℕ) → (m : ℕ) × (head_or (some k) ys ≡ some m)
    head_edge [] = (k, refl)
    head_edge (y ∷ ys) = (y, refl)

-- The node that something is, if it is one, is in the list.
abbrev pub In : List ℕ → Option ℕ → Type 0
In c none = ⊥
In c (some n) = contains n c ≡ true

-- A cycle is closed under the edges.
pub In-next :
    (succ : ℕ → Option ℕ) (c : List ℕ)
    → IsCycle succ c
    → (o : Option ℕ) → In c o
    → In c (next succ o)
unfolding contains
In-next succ c cyc none h = h
In-next succ [] cyc (some n) h = absurd cyc
In-next succ (x ∷ r) cyc (some n) h =
    let (m, s) = has_edge succ n x (x ∷ r) h cyc in
    subst (In (x ∷ r)) (sym s) (elim (chain_next succ n m (x ∷ r) (some x) h cyc s) [
      | inl here ↦ here
      | inr e ↦ ground (arith, ==_iff x m, e)
    ])

-- The node that something is, if it is one, was searched.
abbrev pub Searched : Marks → Option ℕ → Type 0
Searched mark none = Unit
Searched mark (some n) = mark n ≡ done

-- What the outer loop keeps: the searched nodes are closed under the edges, and a list that was
-- found holds each of them that is on a cycle.
pub record Swept (succ : ℕ → Option ℕ) (mark : Marks) (acc : List (List ℕ)) : Type 0 where
  pub clear : NoStack mark
  pub onward : (n m : ℕ) → mark n ≡ done → succ n ≡ some m → mark m ≡ done
  pub reported : (n : ℕ) → mark n ≡ done → OnCycle succ n → Reported n acc

pub Searched-next :
    (succ : ℕ → Option ℕ) (mark : Marks) (acc : List (List ℕ))
    → Swept succ mark acc
    → (o : Option ℕ) → Searched mark o
    → Searched mark (next succ o)
Searched-next succ mark acc i none h = h
Searched-next succ mark acc i (some n) h = go (succ n) refl
  where
    go : (o : Option ℕ) → succ n ≡ o → Searched mark o
    go none e = tt
    go (some m) e = i.onward n m h e

head_or-append :
    (o last : Option ℕ) (xs : List ℕ) (n : ℕ)
    → o ≡ some n
    → head_or last (xs ++ n ∷ []) ≡ head_or o xs
head_or-append o last [] n e = sym e
head_or-append o last (x ∷ xs) n e = refl

pub walk-starts :
    (succ : ℕ → Option ℕ) (fuel : ℕ) (w : Walk) (o : Option ℕ)
    → head_or w.node w.path ≡ o
    → head_or (walk succ fuel w).node (walk succ fuel w).path ≡ o
unfolding walk
walk-starts succ zero w o h = h
walk-starts succ (suc fuel) w o h = elim (test_cases w) [
  | inl (n, e, u) ↦
      subst (λ (r : Walk). head_or r.node r.path ≡ o) (sym (walk_visits succ fuel w n e u))
        (walk-starts succ fuel (visit succ n w) o (head_or-append w.node (succ n) w.path n e ∙ h))
  | inr stop ↦ subst (λ (r : Walk). head_or r.node r.path ≡ o) (sym (walk_stops succ fuel w stop)) h
]

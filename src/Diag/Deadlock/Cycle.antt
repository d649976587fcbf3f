-- ===== src/Diag/Deadlock/Cycle.antt =====
-- About inferDeadlocks (internal/jvmdiag/threaddump.go): chains and cycles of a graph in which each
-- node has at most one edge.
use apm2go.Base.{
  ℕ, zero, suc, ◌+◌, ◌*◌, List, [], ◌∷◌, ◌++◌, true, ◌==◌, ==_iff, Option, none, some, ◌≡◌, refl,
  sym, ap, ◌∙◌, subst, inl, inr, arith, Bool-cases,
}
use apm2go.Base.Eq.{nat_eq}
use apm2go.Base.Dict.{contains}
use apm2go.Diag.Deadlock.{from_node}

-- The first of the nodes, or what follows them.
abbrev pub head_or : Option ℕ → List ℕ → Option ℕ
head_or e [] = e
head_or e (x ∷ xs) = some x

module _ (succ : ℕ → Option ℕ) where
  abbrev pub next : Option ℕ → Option ℕ
  next none = none
  next (some n) = succ n

  -- Each node's edge leads to the one behind it, and the last one's to the end.
  abbrev pub IsChain : List ℕ → Option ℕ → Type 0
  IsChain [] e = Unit
  IsChain (x ∷ r) e = (succ x ≡ head_or e r) × IsChain r e

  -- A chain that leads back to its first node.
  abbrev pub IsCycle : List ℕ → Type 0
  IsCycle [] = ⊥
  IsCycle (x ∷ r) = IsChain (x ∷ r) (some x)

  pub IsChain-append : (xs : List ℕ) (n : ℕ) → IsChain xs (some n) → IsChain (xs ++ n ∷ []) (succ n)
  IsChain-append [] n h = (refl, tt)
  IsChain-append (x ∷ []) n h = (h.0, (refl, tt))
  IsChain-append (x ∷ y ∷ r) n h = (h.0, IsChain-append (y ∷ r) n h.1)

  -- The chain from a node of it on is a cycle if it leads back to the node.
  pub IsCycle-from_node :
      (n : ℕ) (xs : List ℕ) → contains n xs ≡ true → IsChain xs (some n) → IsCycle (from_node n xs)
  unfolding from_node contains
  IsCycle-from_node n [] h c = cc
  IsCycle-from_node n (x ∷ xs) h c = elim (Bool-cases (x == n)) [
    | inl here ↦ rw here (subst (λ m. IsChain (x ∷ xs) (some m)) (sym ((==_iff x n).0 here)) c)
    | inr there ↦ rw there (IsCycle-from_node n xs (ground (arith, h)) c.1)
  ]

  abbrev pub iterate : ℕ → Option ℕ → Option ℕ
  iterate zero o = o
  iterate (suc k) o = iterate k (next o)

  as_often : (a b : ℕ) (o : Option ℕ) → a ≡ b → iterate a o ≡ iterate b o
  as_often a b o e = ap (λ n. iterate n o) e

  pub iterate-add : (j k : ℕ) (o : Option ℕ) → iterate (j + k) o ≡ iterate k (iterate j o)
  iterate-add zero k o = as_often (0 + k) k o (omega arith)
  iterate-add (suc j) k o =
      as_often (suc j + k) (suc (j + k)) o (omega arith) ∙ iterate-add j k (next o)

  -- Following the edges from a node leads back to it.
  abbrev pub OnCycle : ℕ → Type 0
  OnCycle p = (k : ℕ) × (iterate (suc k) (some p) ≡ some p)

  -- Round a cycle as often as one likes.
  rounds : (p k j : ℕ) → iterate (suc k) (some p) ≡ some p → iterate (j * suc k) (some p) ≡ some p
  rounds p k zero h = as_often (0 * suc k) 0 (some p) (omega arith)
  rounds p k (suc j) h =
      as_often (suc j * suc k) (suc k + j * suc k) (some p) (grind arith)
      ∙ iterate-add (suc k) (j * suc k) (some p)
      ∙ ap (iterate (j * suc k)) h
      ∙ rounds p k j h

  Closed-iterate :
      (P : Option ℕ → Type 0)
      → ((o : Option ℕ) → P o → P (next o))
      → (k : ℕ) (o : Option ℕ) → P o
      → P (iterate k o)
  Closed-iterate P closed zero o h = h
  Closed-iterate P closed (suc k) o h = Closed-iterate P closed k (next o) (closed o h)

  -- What is closed under the edges and is reached from a node of a cycle holds the node.
  pub Closed-back :
      (P : Option ℕ → Type 0)
      → ((o : Option ℕ) → P o → P (next o))
      → (p j : ℕ) → OnCycle p
      → P (iterate j (some p))
      → P (some p)
  Closed-back P closed p j (k, h) r =
      subst P
        (sym (iterate-add j (j * k) (some p))
          ∙ as_often (j + j * k) (j * suc k) (some p) (grind arith)
          ∙ rounds p k j h)
        (Closed-iterate P closed (j * k) (iterate j (some p)) r)

  first_reaches :
      (x : ℕ) (xs : List ℕ) (e : Option ℕ)
      → IsChain (x ∷ xs) e
      → (j : ℕ) × (iterate (suc j) (some x) ≡ e)
  first_reaches x [] e c = (0, c.0)
  first_reaches x (y ∷ r) e c =
      let (j, h) = first_reaches y r e c.1 in (suc j, ap (iterate (suc j)) c.0 ∙ h)

  -- A node of a chain reaches what the chain leads to.
  pub reaches_end :
      (p : ℕ) (xs : List ℕ) (e : Option ℕ)
      → contains p xs ≡ true
      → IsChain xs e
      → (j : ℕ) × (iterate j (some p) ≡ e)
  unfolding contains
  reaches_end p [] e h c = cc
  reaches_end p (x ∷ xs) e h c = elim (Bool-cases (x == p)) [
    | inl here ↦
        (let (j, r) = first_reaches x xs e c in
          (suc j, ap (λ m. iterate (suc j) (some m)) (sym ((==_iff x p).0 here)) ∙ r))
    | inr there ↦ reaches_end p xs e (ground (arith, h)) c.1
  ]

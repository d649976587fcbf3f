-- ===== src/Diag/Deadlock/Walking.antt =====
-- About inferDeadlocks (internal/jvmdiag/threaddump.go): one walk, its marks and its path.
use apm2go.Base.{
  ℕ, zero, suc, ◌+◌, ◌≤◌, ◌<◌, List, [], ◌∷◌, ◌++◌, true, false, if◌then◌else◌, ◌==◌, ==_iff,
  Option, none, some, ◌≡◌, ◌≢◌, refl, sym, ap, ◌∙◌, subst, ◌⊎◌, inl, inr, arith, Bool-cases,
  Option-cases,
}
use apm2go.Base.Eq.{nat_eq}
use apm2go.Base.Dict.{contains, contains-append}
use apm2go.Diag.Deadlock.{
  Mark, unvisited, on_stack, done, Marks, set_mark, Walk, visit, walk, mark_all,
}
use apm2go.Diag.Deadlock.Cycle.{IsChain, IsChain-append}

pub mark_all_lem :
    (ns : List ℕ) (mark : Marks) (k : ℕ)
    → mark_all ns mark k ≡ (if contains k ns then done else mark k)
unfolding contains
mark_all_lem [] mark k = refl
mark_all_lem (n ∷ ns) mark k = ground (arith, mark_all_lem ns (set_mark n done mark) k)

-- No walk is under way.
abbrev pub NoStack : Marks → Type 0
NoStack mark = (k : ℕ) → mark k ≢ on_stack

-- The path so far is a chain of fresh nodes that leads to the node, and exactly it is on the stack.
pub record IsWalk (succ : ℕ → Option ℕ) (before : Marks) (w : Walk) : Type 0 where
  pub chain : IsChain succ w.path w.node
  pub marked : (k : ℕ) → w.mark k ≡ (if contains k w.path then on_stack else before k)
  pub fresh : (k : ℕ) → contains k w.path ≡ true → before k ≡ unvisited

module _ (succ : ℕ → Option ℕ) (before : Marks) where
  pub IsWalk-start :
      (start : ℕ) → IsWalk succ before (record { mark = before; path = []; node = some start })
  unfolding contains
  IsWalk-start start = record { chain = tt; marked = λ k. refl; fresh = λ k h. cc }

  off_path :
      (n : ℕ) (w : Walk)
      → IsWalk succ before w
      → w.mark n ≡ unvisited
      → (contains n w.path ≡ false) × (before n ≡ unvisited)
  off_path n w i h = ground (arith, i.marked n)

  IsWalk-visit :
      (n : ℕ) (w : Walk)
      → w.node ≡ some n
      → w.mark n ≡ unvisited
      → IsWalk succ before w
      → IsWalk succ before (visit succ n w)
  unfolding contains
  IsWalk-visit n w e h i = record {
    chain = IsChain-append succ w.path n (subst (IsChain succ w.path) e i.chain);
    marked =
        λ k. ground (arith, contains-append k w.path (n ∷ []), i.marked k, ==_iff k n, ==_iff n k);
    fresh = λ k c. fresh_after k c;
  }
    where
      fresh_after : (k : ℕ) → contains k (w.path ++ n ∷ []) ≡ true → before k ≡ unvisited
      fresh_after k c =
          ground (arith, contains-append k w.path (n ∷ []), i.fresh k, off_path n w i h, ==_iff n k)

-- How many of the nodes below a bound were not visited.
abbrev is_unvisited : Mark → ℕ
is_unvisited unvisited = 1
is_unvisited on_stack = 0
is_unvisited done = 0

abbrev free : ℕ → Marks → ℕ
free zero mark = 0
free (suc k) mark = free k mark + is_unvisited (mark k)

pub free-le : (k : ℕ) (mark : Marks) → free k mark ≤ k
free-le zero mark = omega arith
free-le (suc k) mark = ground (arith, free-le k mark)

free-set_above : (k n : ℕ) (mark : Marks) → k ≤ n → free k (set_mark n on_stack mark) ≡ free k mark
free-set_above zero n mark h = refl
free-set_above (suc k) n mark h = ground (arith, free-set_above k n mark)

free-set :
    (k n : ℕ) (mark : Marks)
    → n < k
    → mark n ≡ unvisited
    → free k (set_mark n on_stack mark) + 1 ≡ free k mark
free-set zero n mark h u = absurd (omega arith)
free-set (suc k) n mark h u = elim (Bool-cases (k == n)) [
  | inl last ↦
      (let e : mark k ≡ mark n = ap mark ((==_iff k n).0 last) in
        ground (arith, free-set_above k n mark, (==_iff k n).0 last, e))
  | inr earlier ↦ ground (arith, free-set k n mark)
]

-- The walk stands where the loop's test fails.
abbrev pub Stopped : Walk → Type 0
Stopped w = (n : ℕ) → w.node ≡ some n → w.mark n ≢ unvisited

-- The loop's test.
pub test_cases : (w : Walk) → ((n : ℕ) × (w.node ≡ some n) × (w.mark n ≡ unvisited)) ⊎ Stopped w
test_cases w = elim (Option-cases w.node) [
  | inl no_node ↦ inr (λ n h u. cc)
  | inr (n, e) ↦ mark_cases (w.mark n) n e refl
]
  where
    mark_cases :
        (m : Mark) (n : ℕ)
        → w.node ≡ some n
        → w.mark n ≡ m
        → ((k : ℕ) × (w.node ≡ some k) × (w.mark k ≡ unvisited)) ⊎ Stopped w
    mark_cases unvisited n e h = inl (n, e, h)
    mark_cases on_stack n e h = inr (λ k f u. ground (arith, e, f, h, u))
    mark_cases done n e h = inr (λ k f u. ground (arith, e, f, h, u))

module _ (succ : ℕ → Option ℕ) (fuel : ℕ) (w : Walk) where
  -- The body of the loop, at what the walk stands on and its mark.
  abbrev at_mark : ℕ → Mark → Walk
  at_mark n m = elim m [ unvisited ↦ walk succ fuel (visit succ n w) | on_stack ↦ w | done ↦ w ]

  abbrev at_node : Option ℕ → Walk
  at_node o = elim o [ none ↦ w | some n ↦ at_mark n (w.mark n) ]

  pub walk_visits :
      (n : ℕ)
      → w.node ≡ some n
      → w.mark n ≡ unvisited
      → walk succ (suc fuel) w ≡ walk succ fuel (visit succ n w)
  unfolding walk
  walk_visits n e h = ap at_node e ∙ ap (at_mark n) h

  stays : (n : ℕ) (m : Mark) → m ≢ unvisited → at_mark n m ≡ w
  stays n unvisited h = absurd (h refl)
  stays n on_stack h = refl
  stays n done h = refl

  pub walk_stops : Stopped w → walk succ (suc fuel) w ≡ w
  unfolding walk
  walk_stops h = elim (Option-cases w.node) [
    | inl e ↦ ap at_node e
    | inr (n, e) ↦ ap at_node e ∙ stays n (w.mark n) (h n e)
  ]

module _ (succ : ℕ → Option ℕ) (bound : ℕ) (within : (n m : ℕ) → succ n ≡ some m → m < bound) where
  pub walk_lem :
      (before : Marks) (fuel : ℕ) (w : Walk)
      → free bound w.mark < fuel
      → ((n : ℕ) → w.node ≡ some n → n < bound)
      → IsWalk succ before w
      → IsWalk succ before (walk succ fuel w) × Stopped (walk succ fuel w)
  walk_lem before zero w f b i = absurd (omega arith)
  walk_lem before (suc fuel) w f b i = elim (test_cases w) [
    | inl (n, e, u) ↦
        subst (λ r. IsWalk succ before r × Stopped r) (sym (walk_visits succ fuel w n e u))
          (walk_lem before fuel (visit succ n w) (omega (arith, free-set bound n w.mark (b n e) u))
            (within n) (IsWalk-visit succ before n w e u i))
    | inr stop ↦
        subst (λ r. IsWalk succ before r × Stopped r) (sym (walk_stops succ fuel w stop)) (i, stop)
  ]

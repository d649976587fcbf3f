-- ===== src/Diag/Deadlock.antt =====
-- internal/jvmdiag/threaddump.go: inferDeadlocks, participantKey and mergeDeadlocks. An array of
-- indices into the threads is a function of the index; -1 is `none`. The walk's loop takes as much
-- fuel as there are threads, and one more.
pub mod Walking
pub mod Cycle
pub mod Sound
pub mod Closure
pub mod Complete
pub mod Merging
use apm2go.Base.{
  ℕ, zero, suc, ◌+◌, List, [], ◌∷◌, ◌++◌, map, Bool, true, false, ◌||◌, if◌then◌else◌, ◌==◌, length,
  is_empty, Option, none, some, get_elem?,
}
use apm2go.Base.Eq.{Bytes, codes, text_eq}
use apm2go.Base.Text.{join}
use apm2go.Base.Dict.{Dict, lookup, insert, contains}
use apm2go.Base.Sorting.{bytes_lt, sort_by}

-- The fields of Thread that the analysis reads.
pub record Thread : Type 0 where
  pub name : Bytes
  pub state : Bytes
  pub frames : List Bytes
  pub waiting_on : Bytes
  pub holds : List Bytes

pub data Source : Type 0 where
  jvm inferred : Source

pub record Deadlock : Type 0 where
  pub threads : List Bytes
  pub source : Source
  pub detail : Bytes

-- The inner loop over the locks of the thread at an index.
unfoldable pub own_all : ℕ → List Bytes → Dict Bytes ℕ → Dict Bytes ℕ
own_all i [] m = m
own_all i (addr ∷ addrs) m = own_all i addrs (insert addr i m)

unfoldable pub owners_from : ℕ → List Thread → Dict Bytes ℕ → Dict Bytes ℕ
unfolding own_all
owners_from i [] m = m
owners_from i (t ∷ ts) m = owners_from (suc i) ts (own_all i t.holds m)

unfoldable pub owner_of : List Thread → Dict Bytes ℕ
unfolding owners_from
owner_of threads = owners_from 0 threads []

-- What a thread waits for, if another thread holds it.
abbrev pub other_owner : ℕ → Option ℕ → Option ℕ
other_owner i none = none
other_owner i (some owner) = if owner == i then none else some owner

-- `waitsFor[i]`
unfoldable pub waits_for : List Thread → ℕ → Option ℕ
waits_for threads i = elim (get_elem? threads i) [
  | none ↦ none
  | some t ↦
      if is_empty t.waiting_on then none else other_owner i (lookup t.waiting_on (owner_of threads))
]

pub data Mark : Type 0 where
  unvisited on_stack done : Mark

abbrev pub Marks : Type 0
Marks = ℕ → Mark

-- mark[n] = m
abbrev pub set_mark : ℕ → Mark → Marks → Marks
set_mark n m mark k = if k == n then m else mark k

-- Where the walk of a chain stands.
pub record Walk : Type 0 where
  pub mark : Marks
  pub path : List ℕ
  pub node : Option ℕ

abbrev pub visit : (ℕ → Option ℕ) → ℕ → Walk → Walk
visit succ n w = record {
  mark = set_mark n on_stack w.mark;
  path = w.path ++ n ∷ [];
  node = succ n;
}

-- for node != -1 && mark[node] == unvisited
unfoldable pub walk : (ℕ → Option ℕ) → ℕ → Walk → Walk
walk succ zero w = w
walk succ (suc fuel) w = elim w.node [
  | none ↦ w
  | some n ↦ elim (w.mark n) [
    | unvisited ↦ walk succ fuel (visit succ n w)
    | on_stack ↦ w
    | done ↦ w
  ]
]

-- path[at:], where `at` is the first place of the node.
unfoldable pub from_node : ℕ → List ℕ → List ℕ
from_node n [] = []
from_node n (x ∷ xs) = if x == n then x ∷ xs else from_node n xs

-- The cycle that a walk ended in, if it did.
unfoldable pub found : Walk → List (List ℕ)
found w = elim w.node [
  | none ↦ []
  | some n ↦ elim (w.mark n) [ unvisited ↦ [] | on_stack ↦ from_node n w.path ∷ [] | done ↦ [] ]
]

abbrev pub mark_all : List ℕ → Marks → Marks
mark_all [] mark = mark
mark_all (n ∷ ns) mark = mark_all ns (set_mark n done mark)

-- One turn of the outer loop: the marks after it and the cycles that it found.
unfoldable pub visit_from : (ℕ → Option ℕ) → ℕ → ℕ → Marks → Marks × List (List ℕ)
visit_from succ fuel start mark = elim (mark start) [
  | unvisited ↦
      (let w = walk succ fuel (record { mark = mark; path = []; node = some start }) in
        (mark_all w.path w.mark, found w))
  | on_stack ↦ (mark, [])
  | done ↦ (mark, [])
]

-- The outer loop, over the starts from an index on.
unfoldable pub cycles_from : (ℕ → Option ℕ) → ℕ → ℕ → ℕ → Marks → Marks × List (List ℕ)
cycles_from succ fuel start zero mark = (mark, [])
cycles_from succ fuel start (suc left) mark =
    let (mark', here) = visit_from succ fuel start mark in
    let (mark'', rest) = cycles_from succ fuel (suc start) left mark' in (mark'', here ++ rest)

abbrev pub no_marks : Marks
no_marks n = unvisited

unfoldable pub cycles : List Thread → List (List ℕ)
cycles threads =
    (cycles_from (waits_for threads) (suc (length threads)) 0 (length threads) no_marks).1

abbrev pub name_at : List Thread → ℕ → Bytes
name_at threads i = elim (get_elem? threads i) [ none ↦ [] | some t ↦ t.name ]

unfoldable pub infer_deadlocks : List Thread → List Deadlock
infer_deadlocks threads =
    map (λ c. record { threads = map (name_at threads) c; source = inferred; detail = [] })
      (cycles threads)

-- The same for every list of the same names.
unfoldable pub participant_key : List Bytes → Bytes
participant_key names = if is_empty names then [] else join (0 ∷ []) (sort_by bytes_lt names)

-- The loops that call `add`, with the keys seen so far.
unfoldable pub merge_all : List Deadlock → List Bytes → List Deadlock
merge_all [] seen = []
merge_all (d ∷ ds) seen =
    let key = participant_key d.threads in
    let skip = is_empty key || contains key seen in
    let rest = merge_all ds (if skip then seen else key ∷ seen) in if skip then rest else d ∷ rest

unfoldable pub merge_deadlocks : List Deadlock → List Deadlock → List Deadlock
merge_deadlocks reported ours = merge_all (reported ++ ours) []

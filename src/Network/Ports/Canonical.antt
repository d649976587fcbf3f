-- ===== src/Network/Ports/Canonical.antt =====
-- About listenPorts (internal/ebpf/listenports.go): the order of the ports.
use apm2go.Base.{
  ℕ, ◌<◌, ◌≤◌, List, [], ◌∷◌, ◌++◌, Bool, true, false, ◌||◌, ◌==◌, ==_iff, ltb, All, Option, none,
  some, ◌≡◌, refl, ap, sym, ◌∙◌, subst, arith, Bool-cases, inl, inr,
}
use apm2go.Base.Eq.{Bytes, nat_eq}
use apm2go.Base.Dict.{contains, contains-append}
use apm2go.Base.Sorting.{insert_by, sort_by, All-insert_by}
use apm2go.Network.Ports.{listening_ports_in_table, add_ports, collect, listen_ports}

-- Every number is below those behind it.
abbrev pub IsAscending : List ℕ → Type 0
IsAscending [] = Unit
IsAscending (x ∷ xs) = All (λ y. x < y) xs × IsAscending xs

contains-below : (n : ℕ) (xs : List ℕ) → All (λ y. n < y) xs → contains n xs ≡ false
unfolding contains
contains-below n [] h = refl
contains-below n (x ∷ xs) h = ground (arith, contains-below n xs h.1, h.0, ==_iff x n)

contains-All : (P : ℕ → Type 0) (n : ℕ) (xs : List ℕ) → All P xs → contains n xs ≡ true → P n
unfolding contains
contains-All P n [] h c = cc
contains-All P n (x ∷ xs) h c = elim (Bool-cases (x == n)) [
  | inl here ↦ subst P ((==_iff x n).0 here) h.0
  | inr there ↦ contains-All P n xs h.1 (ground (arith, c))
]

first_le : (n x : ℕ) (xs : List ℕ) → IsAscending (x ∷ xs) → contains n (x ∷ xs) ≡ true → x ≤ n
unfolding contains
first_le n x xs a c = elim (Bool-cases (x == n)) [
  | inl here ↦ omega (arith, (==_iff x n).0 here)
  | inr there ↦ omega (arith, contains-All (λ y. x < y) n xs a.0 (ground (arith, c)))
]

-- Ascending lists of the same numbers are equal.
IsAscending-eq :
    (xs ys : List ℕ)
    → IsAscending xs
    → IsAscending ys
    → ((n : ℕ) → contains n xs ≡ contains n ys)
    → xs ≡ ys
unfolding contains
IsAscending-eq [] [] a b h = refl
IsAscending-eq [] (y ∷ ys) a b h = absurd (ground (arith, h y, ==_iff y y))
IsAscending-eq (x ∷ xs) [] a b h = absurd (ground (arith, h x, ==_iff x x))
IsAscending-eq (x ∷ xs) (y ∷ ys) a b h =
    let mx : contains x (y ∷ ys) ≡ true = ground (arith, h x, ==_iff x x) in
    let my : contains y (x ∷ xs) ≡ true = ground (arith, h y, ==_iff y y) in
    let e : x ≡ y = omega (arith, first_le x y ys b mx, first_le y x xs a my) in
    ap (λ n. n ∷ xs) e ∙ ap (◌∷◌ y) (IsAscending-eq xs ys a.1 b.1 (tails e))
  where
    tails : x ≡ y → (n : ℕ) → contains n xs ≡ contains n ys
    tails e n =
        ground
          (arith, h n, e, ==_iff x n, ==_iff y n, contains-below x xs a.0, contains-below y ys b.0)

All-lower : (m n : ℕ) (ys : List ℕ) → m < n → All (λ y. n < y) ys → All (λ y. m < y) ys
All-lower m n [] l h = tt
All-lower m n (y ∷ ys) l h = (omega (arith, h.0), All-lower m n ys l h.1)

IsAscending-insert_by :
    (n : ℕ) (xs : List ℕ)
    → contains n xs ≡ false
    → IsAscending xs
    → IsAscending (insert_by ltb n xs)
unfolding insert_by contains
IsAscending-insert_by n [] c a = (tt, tt)
IsAscending-insert_by n (x ∷ xs) c a = elim (Bool-cases (ltb x n)) [
  | inl before ↦ rw before (
    All-insert_by ltb (λ y. x < y) n xs (ground (arith, before)) a.0,
    IsAscending-insert_by n xs (ground (arith, c)) a.1,
  )
  | inr behind ↦ rw behind ((below_first behind c, All-lower n x xs (below_first behind c) a.0), a)
]
  where
    below_first : ltb x n ≡ false → (x == n || contains n xs) ≡ false → n < x
    below_first b d = ground (arith, b, d, ==_iff x n)

contains-insert_by :
    (n m : ℕ) (xs : List ℕ) → contains n (insert_by ltb m xs) ≡ (m == n || contains n xs)
unfolding insert_by contains
contains-insert_by n m [] = refl
contains-insert_by n m (x ∷ xs) = ground (arith, contains-insert_by n m xs)

contains-sort_by : (n : ℕ) (xs : List ℕ) → contains n (sort_by ltb xs) ≡ contains n xs
unfolding sort_by contains
contains-sort_by n [] = refl
contains-sort_by n (x ∷ xs) =
    contains-insert_by n x (sort_by ltb xs) ∙ ap (λ b. x == n || b) (contains-sort_by n xs)

-- No number stands twice.
abbrev pub NoRepeat : List ℕ → Type 0
NoRepeat [] = Unit
NoRepeat (x ∷ xs) = (contains x xs ≡ false) × NoRepeat xs

IsAscending-sort_by : (xs : List ℕ) → NoRepeat xs → IsAscending (sort_by ltb xs)
unfolding sort_by
IsAscending-sort_by [] h = tt
IsAscending-sort_by (x ∷ xs) h =
    IsAscending-insert_by x (sort_by ltb xs) (contains-sort_by x xs ∙ h.0)
      (IsAscending-sort_by xs h.1)

NoRepeat-append :
    (n : ℕ) (xs : List ℕ) → contains n xs ≡ false → NoRepeat xs → NoRepeat (xs ++ n ∷ [])
unfolding contains
NoRepeat-append n [] c h = (refl, tt)
NoRepeat-append n (x ∷ xs) c h = (
  ground (arith, contains-append x xs (n ∷ []), h.0, c, ==_iff x n, ==_iff n x),
  NoRepeat-append n xs (ground (arith, c)) h.1,
)

add_ports-NoRepeat : (ps ports : List ℕ) → NoRepeat ports → NoRepeat (add_ports ps ports)
unfolding add_ports
add_ports-NoRepeat [] ports h = h
add_ports-NoRepeat (p ∷ ps) ports h = elim (Bool-cases (contains p ports)) [
  | inl old ↦ rw old (add_ports-NoRepeat ps ports h)
  | inr fresh ↦ rw fresh (add_ports-NoRepeat ps (ports ++ p ∷ []) (NoRepeat-append p ports fresh h))
]

contains-add_ports :
    (n : ℕ) (ps ports : List ℕ)
    → contains n (add_ports ps ports) ≡ (contains n ps || contains n ports)
unfolding add_ports contains
contains-add_ports n [] ports = refl
contains-add_ports n (p ∷ ps) ports = elim (Bool-cases (contains p ports)) [
  | inl old ↦ rw old (contains-add_ports n ps ports ∙ ground (arith, ==_iff p n, old))
  | inr fresh ↦
      rw fresh (
        contains-add_ports n ps (ports ++ p ∷ [])
        ∙ ground (arith, contains-append n ports (p ∷ [])))
]

-- A port of some table's rows.
abbrev pub is_listened : List ℕ → ℕ → List (Option (List Bytes)) → Bool
is_listened owned n [] = false
is_listened owned n (none ∷ tables) = is_listened owned n tables
is_listened owned n (some lines ∷ tables) =
    contains n (listening_ports_in_table owned lines) || is_listened owned n tables

collect-NoRepeat :
    (owned : List ℕ) (tables : List (Option (List Bytes))) (ports : List ℕ)
    → NoRepeat ports
    → NoRepeat (collect owned tables ports)
unfolding collect
collect-NoRepeat owned [] ports h = h
collect-NoRepeat owned (none ∷ tables) ports h = collect-NoRepeat owned tables ports h
collect-NoRepeat owned (some lines ∷ tables) ports h =
    collect-NoRepeat owned tables _
      (add_ports-NoRepeat (listening_ports_in_table owned lines) ports h)

contains-collect :
    (owned : List ℕ) (n : ℕ) (tables : List (Option (List Bytes))) (ports : List ℕ)
    → contains n (collect owned tables ports) ≡ (is_listened owned n tables || contains n ports)
unfolding collect
contains-collect owned n [] ports = refl
contains-collect owned n (none ∷ tables) ports = contains-collect owned n tables ports
contains-collect owned n (some lines ∷ tables) ports =
    contains-collect owned n tables _
    ∙ ground (arith, contains-add_ports n (listening_ports_in_table owned lines) ports)

pub listen_ports-IsAscending :
    (owned : List ℕ) (tables : List (Option (List Bytes)))
    → IsAscending (listen_ports owned tables)
      × ((n : ℕ) → contains n (listen_ports owned tables) ≡ is_listened owned n tables)
unfolding listen_ports
listen_ports-IsAscending owned tables = (
  IsAscending-sort_by (collect owned tables []) (collect-NoRepeat owned tables [] tt),
  λ n.
      contains-sort_by n (collect owned tables []) ∙ contains-collect owned n tables [] ∙ no_more n,
)
  where
    no_more : (n : ℕ) → (is_listened owned n tables || contains n []) ≡ is_listened owned n tables
    no_more n = unfold contains in ground arith

-- Two scans that find the same listening ports return the same list, whatever the order and the
-- number of the rows, the tables and the inodes.
pub listen_ports_same :
    (owned owned' : List ℕ) (tables tables' : List (Option (List Bytes)))
    → ((n : ℕ) → is_listened owned n tables ≡ is_listened owned' n tables')
    → listen_ports owned tables ≡ listen_ports owned' tables'
listen_ports_same owned owned' tables tables' h =
    let (a, c) = listen_ports-IsAscending owned tables in
    let (a', c') = listen_ports-IsAscending owned' tables' in
    IsAscending-eq (listen_ports owned tables) (listen_ports owned' tables') a a'
      (λ n. c n ∙ h n ∙ sym (c' n))

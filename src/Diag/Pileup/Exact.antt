-- ===== src/Diag/Pileup/Exact.antt =====
-- About findPileups (internal/jvmdiag/threaddump.go): the list that it returns.
use apm2go.Base.{
  ℕ, zero, suc, ◌+◌, ◌≤◌, List, [], ◌∷◌, Bool, true, false, if◌then◌else◌, ltb, any, take, length,
  length-take, is_empty, All, Option, none, some, ◌≡◌, refl, ap, sym, ◌∙◌, ◌⊎◌, inl, inr, arith,
  Bool-cases, Option-conflict,
}
use apm2go.Base.Eq.{Bytes, text_eq, bytes_eq}
use apm2go.Base.Dict.{Dict, lookup, insert, lookup-insert}
use apm2go.Base.Sorting.{
  bytes_lt-IsOrder, sort_by, IsOrdered, IsOrdered-sort_by, All-sort_by, any-sort_by,
}
use apm2go.Diag.Deadlock.{Thread}
use apm2go.Diag.Pileup.{
  Pileup, Group, group_or_new, grown, signature_frame, group_thread, group_threads, large_groups,
  pileup_before, find_pileups,
}
use apm2go.Diag.Pileup.Groups.{
  threads_at, Unique-group_threads, size_in-group_threads, Found, All-Found,
}

-- What a reported pile-up says of the threads.
abbrev pub IsExact : List Thread → Pileup → Type 0
IsExact threads p = (p.count ≡ threads_at p.frame threads) × (3 ≤ p.count)

abbrev pub at_frame : Bytes → Pileup → Bool
at_frame frame p = bytes_eq p.frame frame

pileup_before-asym : (a b : Pileup) → pileup_before a b ≡ true → pileup_before b a ≡ false
unfolding pileup_before
pileup_before-asym a b h = ground (arith, bytes_lt-IsOrder.asym a.frame b.frame)

IsOrdered-take {ℓ} :
    {A : Type ℓ} (lt : A → A → Bool) (n : ℕ) (xs : List A)
    → IsOrdered lt xs
    → IsOrdered lt (take n xs)
IsOrdered-take lt zero xs h = tt
IsOrdered-take lt (suc n) [] h = tt
IsOrdered-take lt (suc zero) (x ∷ []) h = tt
IsOrdered-take lt (suc (suc n)) (x ∷ []) h = tt
IsOrdered-take lt (suc zero) (x ∷ y ∷ ys) h = tt
IsOrdered-take lt (suc (suc n)) (x ∷ y ∷ ys) h = (h.0, IsOrdered-take lt (suc n) (y ∷ ys) h.1)

All-take {ℓ κ} : {A : Type ℓ} (P : A → Type κ) (n : ℕ) (xs : List A) → All P xs → All P (take n xs)
All-take P zero xs h = tt
All-take P (suc n) [] h = tt
All-take P (suc n) (x ∷ xs) h = (h.0, All-take P n xs h.1)

any-take {ℓ} :
    {A : Type ℓ} (p : A → Bool) (n : ℕ) (xs : List A)
    → any p xs ≡ true
    → (any p (take n xs) ≡ true) ⊎ (length (take n xs) ≡ n)
any-take p zero xs h = inr refl
any-take p (suc n) [] h = cc
any-take p (suc n) (x ∷ xs) h = ground (arith, any-take p n xs)

no_empty :
    (ts : List Thread) (groups : Dict Bytes Group)
    → lookup [] groups ≡ none
    → lookup [] (group_threads ts groups) ≡ none
unfolding group_threads group_thread bytes_eq
no_empty [] groups h = h
no_empty (t ∷ ts) groups h = no_empty ts (group_thread t groups) (go (signature_frame t.frames))
  where
    go :
        (f : Bytes)
        → lookup [] (
            if is_empty f
            then groups
            else insert f (grown t.state (group_or_new (lookup f groups))) groups)
          ≡ none
    go [] = h
    go (c ∷ f) =
        lookup-insert (c ∷ f) [] (grown t.state (group_or_new (lookup (c ∷ f) groups))) groups ∙ h

large_groups-IsExact :
    (threads : List Thread) (whole groups : Dict Bytes Group)
    → ((f : Bytes) (g : Group) → lookup f whole ≡ some g → g.size ≡ threads_at f threads)
    → All (Found whole) groups
    → All (IsExact threads) (large_groups groups)
unfolding large_groups
large_groups-IsExact threads whole [] e h = tt
large_groups-IsExact threads whole ((f, g) ∷ groups) e h = elim (Bool-cases (ltb g.size 3)) [
  | inl small ↦ rw small (large_groups-IsExact threads whole groups e h.1)
  | inr large ↦
      rw large ((e f g h.0, size_ok large), large_groups-IsExact threads whole groups e h.1)
]
  where
    size_ok : ltb g.size 3 ≡ false → 3 ≤ g.size
    size_ok l = ground arith

large_groups-any :
    (frame : Bytes) (g : Group) (groups : Dict Bytes Group)
    → lookup frame groups ≡ some g
    → 3 ≤ g.size
    → any (at_frame frame) (large_groups groups) ≡ true
unfolding large_groups lookup
large_groups-any frame g [] h l = cc
large_groups-any frame g ((f, k) ∷ groups) h l = ground (arith, large_groups-any frame g groups)

found_size :
    (frame : Bytes) (threads : List Thread) (o : Option Group)
    → is_empty frame ≡ false
    → lookup frame (group_threads threads []) ≡ o
    → (group_or_new o).size ≡ threads_at frame threads
unfolding lookup
found_size frame threads o h e =
    ap (λ (p : Option Group). (group_or_new p).size) (sym e)
    ∙ size_in-group_threads frame threads [] h
    ∙ none_before (threads_at frame threads)
  where
    none_before : (n : ℕ) → 0 + n ≡ n
    none_before n = omega arith

-- Each reported pile-up counts exactly the threads whose signature frame is its frame, and there are
-- at least three; at most ten are reported, the largest ones first and those of one size in the order
-- of their frames.
pub find_pileups-IsExact :
    (threads : List Thread)
    → All (IsExact threads) (find_pileups threads)
      × length (find_pileups threads) ≤ 10
      × IsOrdered pileup_before (find_pileups threads)
unfolding find_pileups lookup
find_pileups-IsExact threads =
    let found = large_groups (group_threads threads []) in
    (
      All-take (IsExact threads) 10 (sort_by pileup_before found)
          (All-sort_by pileup_before (IsExact threads) found exact),
      omega (arith, length-take 10 (sort_by pileup_before found)),
      IsOrdered-take pileup_before 10 (sort_by pileup_before found)
          (IsOrdered-sort_by pileup_before pileup_before-asym found),
    )
  where
    sizes :
        (f : Bytes) (g : Group)
        → lookup f (group_threads threads []) ≡ some g
        → g.size ≡ threads_at f threads
    sizes [] g e = Option-conflict _ g e (no_empty threads [] refl)
    sizes (c ∷ f) g e = found_size (c ∷ f) threads (some g) refl e

    exact : All (IsExact threads) (large_groups (group_threads threads []))
    exact =
        large_groups-IsExact threads (group_threads threads []) (group_threads threads []) sizes
          (All-Found (group_threads threads []) (Unique-group_threads threads [] tt))

-- Every frame that is not empty and is the signature frame of three threads or more is reported,
-- unless ten others are.
pub find_pileups-any :
    (frame : Bytes) (threads : List Thread)
    → is_empty frame ≡ false
    → 3 ≤ threads_at frame threads
    → (any (at_frame frame) (find_pileups threads) ≡ true) ⊎ (length (find_pileups threads) ≡ 10)
unfolding find_pileups lookup
find_pileups-any frame threads n h = any-take (at_frame frame) 10 (sort_by pileup_before found) (
    any-sort_by pileup_before (at_frame frame) found
    ∙ reported (lookup frame (group_threads threads [])) refl)
  where
    found : List Pileup
    found = large_groups (group_threads threads [])

    reported :
        (o : Option Group)
        → lookup frame (group_threads threads []) ≡ o
        → any (at_frame frame) found ≡ true
    reported none e = absurd (omega (arith, found_size frame threads none n e))
    reported (some g) e =
        large_groups-any frame g (group_threads threads []) e
          (omega (arith, found_size frame threads (some g) n e))

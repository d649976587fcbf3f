-- ===== src/Diag/Deadlock/Merging.antt =====
-- About mergeDeadlocks and participantKey (internal/jvmdiag/threaddump.go).
use apm2go.Base.{
  List, [], ◌∷◌, ◌++◌, Bool, true, false, ◌||◌, if◌then◌else◌, is_empty, filter, take, ◌≡◌, refl,
  ap, sym, ◌∙◌, arith, Bool-cases, inl, inr,
}
use apm2go.Base.Eq.{Bytes, text_eq, bytes_eq, bytes_eq_iff}
use apm2go.Base.Text.{join}
use apm2go.Base.Dict.{contains}
use apm2go.Base.Sorting.{bytes_lt, bytes_lt-IsOrder, sort_by, sort_by-rotate}
use apm2go.Diag.Deadlock.{Deadlock, participant_key, merge_all, merge_deadlocks}

-- The report names the threads of a key.
abbrev pub has_key : Bytes → Deadlock → Bool
has_key key d = bytes_eq key (participant_key d.threads)

is_empty_iff : (s : Bytes) → is_empty s ≡ true → s ≡ []
is_empty_iff [] h = refl
is_empty_iff (c ∷ s) h = cc

module _ (d : Deadlock) (ds : List Deadlock) (seen : List Bytes) where
  merge_skips :
      (is_empty (participant_key d.threads) || contains (participant_key d.threads) seen) ≡ true
      → merge_all (d ∷ ds) seen ≡ merge_all ds seen
  unfolding merge_all
  merge_skips h =
      ap
        (λ b.
          let rest = merge_all ds (if b then seen else participant_key d.threads ∷ seen) in
          if b then rest else d ∷ rest)
        h

  merge_keeps :
      (is_empty (participant_key d.threads) || contains (participant_key d.threads) seen) ≡ false
      → merge_all (d ∷ ds) seen ≡ d ∷ merge_all ds (participant_key d.threads ∷ seen)
  unfolding merge_all
  merge_keeps h =
      ap
        (λ b.
          let rest = merge_all ds (if b then seen else participant_key d.threads ∷ seen) in
          if b then rest else d ∷ rest)
        h

bytes_eq_comm : (a b : Bytes) → bytes_eq a b ≡ bytes_eq b a
bytes_eq_comm a b = ground (arith, bytes_eq_iff a b, bytes_eq_iff b a)

-- The Boolean content of a turn of the loop.
turn_lem {ℓ} :
    {A : Type ℓ} (same old_own old empty : Bool) (d : A) (before after rest : List A)
    → (same ≡ true → (old ≡ old_own) × (empty ≡ false))
    → before ≡ (if old then [] else take 1 rest)
    → after ≡ (if same || old then [] else take 1 rest)
    → (if empty || old_own then before else if same then d ∷ after else after)
      ≡ (if old then [] else take 1 (if same then d ∷ rest else rest))
turn_lem true old_own old empty d before after rest s b a =
    ap (λ e. if e || old_own then before else d ∷ after) (s refl).1 ∙ ground (arith, s refl, b, a)
turn_lem false old_own old true d before after rest s b a = b
turn_lem false true old false d before after rest s b a = b
turn_lem false false old false d before after rest s b a = a

merge_all-first :
    (key : Bytes) (ds : List Deadlock) (seen : List Bytes)
    → is_empty key ≡ false
    → filter (has_key key) (merge_all ds seen)
      ≡ (if contains key seen then [] else take 1 (filter (has_key key) ds))
unfolding contains
merge_all-first key [] seen h = unfold merge_all in ground arith
merge_all-first key (d ∷ ds) seen h =
    turn
    ∙ turn_lem (has_key key d) (contains own seen) (contains key seen) (is_empty own) d
        (filter (has_key key) (merge_all ds seen))
        (filter (has_key key) (merge_all ds (own ∷ seen))) (filter (has_key key) ds)
        (λ same.
          let e : own ≡ key = sym ((bytes_eq_iff key own).0 same) in
          (ap (λ k. contains k seen) (sym e), ap is_empty e ∙ h))
        (merge_all-first key ds seen h)
        (merge_all-first key ds (own ∷ seen) h
          ∙ ap (λ b. if b || contains key seen then [] else take 1 (filter (has_key key) ds))
              (bytes_eq_comm own key))
  where
    own : Bytes
    own = participant_key d.threads

    turn : filter (has_key key) (merge_all (d ∷ ds) seen) ≡ (
        if is_empty own || contains own seen
        then filter (has_key key) (merge_all ds seen)
        else filter (has_key key) (d ∷ merge_all ds (own ∷ seen)))
    turn = elim (Bool-cases (is_empty own || contains own seen)) [
      | inl skip ↦ ap (filter (has_key key)) (merge_skips d ds seen skip) ∙ sym (branch skip)
      | inr fresh ↦ ap (filter (has_key key)) (merge_keeps d ds seen fresh) ∙ sym (branch fresh)
    ]
      where
        branch :
            {b : Bool}
            → (is_empty own || contains own seen) ≡ b
            → (if is_empty own || contains own seen
                then filter (has_key key) (merge_all ds seen)
                else filter (has_key key) (d ∷ merge_all ds (own ∷ seen)))
              ≡ (if b
                  then filter (has_key key) (merge_all ds seen)
                  else filter (has_key key) (d ∷ merge_all ds (own ∷ seen)))
        branch e =
            ap
              (λ b.
                if b
                then filter (has_key key) (merge_all ds seen)
                else filter (has_key key) (d ∷ merge_all ds (own ∷ seen)))
              e

-- Of the reports that name the same threads exactly the first one is kept, and the JVM's come first.
pub merge_deadlocks-first :
    (key : Bytes) (reported ours : List Deadlock)
    → is_empty key ≡ false
    → filter (has_key key) (merge_deadlocks reported ours)
      ≡ take 1 (filter (has_key key) (reported ++ ours))
unfolding merge_deadlocks contains
merge_deadlocks-first key reported ours h = merge_all-first key (reported ++ ours) [] h

-- A cycle's key does not depend on which of its threads is named first.
pub participant_key-rotate :
    (xs ys : List Bytes) → participant_key (xs ++ ys) ≡ participant_key (ys ++ xs)
unfolding participant_key
participant_key-rotate xs ys =
    ap (λ b. if b then [] else join (0 ∷ []) (sort_by bytes_lt (xs ++ ys))) (is_empty-append xs ys)
    ∙ ap (λ l. if is_empty (ys ++ xs) then [] else join (0 ∷ []) l)
        (sort_by-rotate bytes_lt bytes_lt-IsOrder xs ys)
  where
    is_empty-append : (xs ys : List Bytes) → is_empty (xs ++ ys) ≡ is_empty (ys ++ xs)
    is_empty-append [] [] = refl
    is_empty-append [] (y ∷ ys) = refl
    is_empty-append (x ∷ xs) [] = refl
    is_empty-append (x ∷ xs) (y ∷ ys) = refl

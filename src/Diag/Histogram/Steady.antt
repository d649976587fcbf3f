-- ===== src/Diag/Histogram/Steady.antt =====
-- About Diff (internal/jvmdiag/classhistogram.go): a dump and itself.
use apm2go.Base.{
  ℕ, List, [], ◌∷◌, ◌++◌, Bool, false, ◌&&◌, ◌||◌, if◌then◌else◌, ◌==◌, ltb, length, take, Option,
  some, All, All-append, ◌≡◌, refl, ap, ◌∙◌, arith, any,
}
use apm2go.Base.Eq.{Bytes, text_eq, bytes_eq, bytes_eq_iff, bytes_eq_refl}
use apm2go.Base.Int.{pos, ◌-ℤ◌, ltb_ℤ}
use apm2go.Base.Dict.{Dict, lookup, insert, erase, lookup-insert, lookup-erase}
use apm2go.Base.Sorting.{sort_by, All-sort_by}
use apm2go.Diag.Histogram.{
  ClassCount, ClassDelta, ClassHistogram, index_classes, earlier_of, later_deltas, gone_deltas,
  heaviest_gain_first, largest_loss_first, divide, all_deltas, diff,
}
use apm2go.Diag.Histogram.Balance.{
  sum_by, gained, lost, held, DistinctNames, AreNew-nil, index_classes-held, index_classes-Unique,
  later_deltas-balance,
}

abbrev IsUnchanged : ClassDelta → Type 0
IsUnchanged d = d.bytes_delta ≡ pos 0

abbrev has_name : Bytes → ClassCount → Bool
has_name k d = bytes_eq k d.name

-- The dictionary has each row under its name.
abbrev Holds : Dict Bytes ClassCount → ClassCount → Type 0
Holds m c = lookup c.name m ≡ some c

lookup-index_classes :
    (k : Bytes) (cs : List ClassCount) (m : Dict Bytes ClassCount)
    → any (has_name k) cs ≡ false
    → lookup k (index_classes cs m) ≡ lookup k m
unfolding index_classes
lookup-index_classes k [] m h = refl
lookup-index_classes k (c ∷ cs) m h =
    lookup-index_classes k cs (insert c.name c m) (ground (arith, h))
    ∙ ground (arith, lookup-insert c.name k c m, h, bytes_eq_iff c.name k, bytes_eq_iff k c.name)

All-Holds :
    (cs : List ClassCount) (m : Dict Bytes ClassCount)
    → DistinctNames cs
    → All (Holds (index_classes cs m)) cs
unfolding index_classes
All-Holds [] m d = tt
All-Holds (c ∷ cs) m d = (
  lookup-index_classes c.name cs (insert c.name c m) d.0
      ∙ ground (arith, lookup-insert c.name c.name c m, bytes_eq_refl c.name),
  All-Holds cs (insert c.name c m) d.1,
)

held_behind :
    (c : ClassCount) (m : Dict Bytes ClassCount) (cs : List ClassCount)
    → any (has_name c.name) cs ≡ false
    → All (Holds m) cs
    → All (Holds (erase c.name m)) cs
held_behind c m [] a h = tt
held_behind c m (d ∷ ds) a h = (
  ground (arith, lookup-erase c.name d.name m, a, h.0),
  held_behind c m ds (ground (arith, a)) h.1,
)

minus_self : (n : ℕ) → pos n -ℤ pos n ≡ pos 0
unfolding ◌-ℤ◌
minus_self n = ground arith

later_deltas-IsUnchanged :
    (cs : List ClassCount) (m : Dict Bytes ClassCount)
    → DistinctNames cs
    → All (Holds m) cs
    → All IsUnchanged (later_deltas cs m).0
unfolding later_deltas
later_deltas-IsUnchanged [] m d h = tt
later_deltas-IsUnchanged (c ∷ cs) m d h = (
  ap (λ (o : Option ClassCount). pos c.bytes -ℤ pos (earlier_of c.name o).bytes) h.0
      ∙ minus_self c.bytes,
  later_deltas-IsUnchanged cs (erase c.name m) d.1 (held_behind c m cs d.0 h.1),
)

unchanged_sums :
    (ds : List ClassDelta) → All IsUnchanged ds → (sum_by gained ds ≡ 0) × (sum_by lost ds ≡ 0)
unchanged_sums [] h = (refl, refl)
unchanged_sums (d ∷ ds) h =
    let (g, l) = unchanged_sums ds h.1 in (ground (arith, h.0, g), ground (arith, h.0, l))

gone_deltas-IsUnchanged :
    (left : Dict Bytes ClassCount) → held left ≡ 0 → All IsUnchanged (gone_deltas left)
unfolding gone_deltas ◌-ℤ◌
gone_deltas-IsUnchanged [] h = tt
gone_deltas-IsUnchanged ((k, c) ∷ left) h =
    (ground (arith, h), gone_deltas-IsUnchanged left (omega arith))

all_deltas-IsUnchanged :
    (cs : List ClassCount) → DistinctNames cs → All IsUnchanged (all_deltas cs cs)
all_deltas-IsUnchanged cs d =
    let before = index_classes cs [] in
    let r = later_deltas cs before in
    let here = later_deltas-IsUnchanged cs before d (All-Holds cs [] d) in
    let (g, l) = unchanged_sums r.0 here in
    All-append IsUnchanged r.0 (gone_deltas r.1) here (
      gone_deltas-IsUnchanged r.1 (
        omega (
          arith,
          g,
          l,
          later_deltas-balance cs before (index_classes-Unique cs [] tt),
          index_classes-held cs [] d (AreNew-nil cs),
        )))

divide_unchanged :
    (limit : ℕ) (ds : List ClassDelta) (acc : List ClassDelta × List ClassDelta)
    → All IsUnchanged ds
    → divide limit ds acc ≡ acc
unfolding divide
divide_unchanged limit [] acc h = refl
divide_unchanged limit (d ∷ ds) acc h =
    ap
      (λ z. divide limit ds (
        if ltb_ℤ (pos 0) z && (limit == 0 || ltb (length acc.0) limit)
        then (acc.0 ++ d ∷ [], acc.1)
        else if ltb_ℤ z (pos 0)
        then (acc.0, acc.1 ++ d ∷ [])
        else acc))
      h.0
    ∙ divide_unchanged limit ds acc h.1

-- A dump compared with itself shows no class that grew and none that shrank, whatever the limit. The
-- condition is that it has no two rows with one name.
pub diff_self :
    (h : ClassHistogram) (limit : ℕ)
    → DistinctNames h.classes
    → ((diff h h limit).growth ≡ []) × ((diff h h limit).shrink ≡ [])
unfolding diff sort_by
diff_self h limit d =
    let sorted = sort_by heaviest_gain_first (all_deltas h.classes h.classes) in
    let e =
      divide_unchanged limit sorted ([], [])
        (All-sort_by heaviest_gain_first IsUnchanged (all_deltas h.classes h.classes)
          (all_deltas-IsUnchanged h.classes d)) in
    (ap (λ r. r.0) e, ap (λ r. shown (sort_by largest_loss_first r.1)) e ∙ ground arith)
  where
    shown : List ClassDelta → List ClassDelta
    shown s = if ltb 0 limit && ltb limit (length s) then take limit s else s

-- ===== src/Diag/Histogram.antt =====
-- internal/jvmdiag/classhistogram.go: ClassCount, ClassHistogram, Top and Diff. Counts and sizes are
-- not negative and fit an int64, so their differences do. A limit of 0 stands for every limit that
-- is not positive.
pub mod Balance
pub mod Steady
use apm2go.Base.{
  ℕ, zero, suc, ◌+◌, List, [], ◌∷◌, ◌++◌, Bool, true, false, ◌&&◌, ◌||◌, if◌then◌else◌, ◌==◌, ltb,
  take, length, Option, none, some,
}
use apm2go.Base.Eq.{Bytes, text_eq}
use apm2go.Base.Int.{ℤ, pos, ◌-ℤ◌, ltb_ℤ}
use apm2go.Base.Dict.{Dict, lookup, insert, erase}
use apm2go.Base.Sorting.{bytes_lt, sort_by}

pub record ClassCount : Type 0 where
  pub rank : ℕ
  pub name : Bytes
  pub instances : ℕ
  pub bytes : ℕ

pub record ClassHistogram : Type 0 where
  pub classes : List ClassCount
  pub total_instances : ℕ
  pub total_bytes : ℕ
  pub class_count : ℕ

unfoldable pub top : ℕ → ClassHistogram → ClassHistogram
top n h = if ltb 0 n && ltb n (length h.classes) then record h { classes = take n h.classes } else h

pub record ClassDelta : Type 0 where
  pub name : Bytes
  pub instances : ℕ
  pub bytes : ℕ
  pub instances_delta : ℤ
  pub bytes_delta : ℤ

pub record HistogramDiff : Type 0 where
  pub growth : List ClassDelta
  pub shrink : List ClassDelta
  pub total_bytes_delta : ℤ

-- The loop that fills the map of the earlier dump.
unfoldable pub index_classes : List ClassCount → Dict Bytes ClassCount → Dict Bytes ClassCount
index_classes [] before = before
index_classes (c ∷ cs) before = index_classes cs (insert c.name c before)

-- What the map gives for a name: a missing one has the zero value.
abbrev pub earlier_of : Bytes → Option ClassCount → ClassCount
earlier_of n none = record { rank = 0; name = []; instances = 0; bytes = 0 }
earlier_of n (some c) = c

abbrev pub delta_from : ClassCount → ClassCount → ClassDelta
delta_from prev c = record {
  name = c.name;
  instances = c.instances;
  bytes = c.bytes;
  instances_delta = pos c.instances -ℤ pos prev.instances;
  bytes_delta = pos c.bytes -ℤ pos prev.bytes;
}

-- The loop over the later dump: the changes, and what is left of the map.
unfoldable pub later_deltas :
    List ClassCount → Dict Bytes ClassCount → List ClassDelta × Dict Bytes ClassCount
later_deltas [] before = ([], before)
later_deltas (c ∷ cs) before =
    let (ds, left) = later_deltas cs (erase c.name before) in
    (delta_from (earlier_of c.name (lookup c.name before)) c ∷ ds, left)

-- The loop over what is left.
unfoldable pub gone_deltas : Dict Bytes ClassCount → List ClassDelta
gone_deltas [] = []
gone_deltas ((_, c) ∷ left) =
    record {
      name = c.name;
      instances = 0;
      bytes = 0;
      instances_delta = pos 0 -ℤ pos c.instances;
      bytes_delta = pos 0 -ℤ pos c.bytes;
    }
    ∷ gone_deltas left

unfoldable pub heaviest_gain_first : ClassDelta → ClassDelta → Bool
heaviest_gain_first a b =
    if ltb_ℤ b.bytes_delta a.bytes_delta
    then true
    else if ltb_ℤ a.bytes_delta b.bytes_delta
    then false
    else bytes_lt a.name b.name

unfoldable pub largest_loss_first : ClassDelta → ClassDelta → Bool
largest_loss_first a b =
    if ltb_ℤ a.bytes_delta b.bytes_delta
    then true
    else if ltb_ℤ b.bytes_delta a.bytes_delta
    then false
    else bytes_lt a.name b.name

-- One turn of the loop that divides the changes.
abbrev pub divide_one :
    ℕ → ClassDelta → List ClassDelta × List ClassDelta → List ClassDelta × List ClassDelta
divide_one limit d (growth, shrink) =
    if ltb_ℤ (pos 0) d.bytes_delta && (limit == 0 || ltb (length growth) limit)
    then (growth ++ d ∷ [], shrink)
    else if ltb_ℤ d.bytes_delta (pos 0)
    then (growth, shrink ++ d ∷ [])
    else (growth, shrink)

unfoldable pub divide :
    ℕ → List ClassDelta → List ClassDelta × List ClassDelta → List ClassDelta × List ClassDelta
divide limit [] acc = acc
divide limit (d ∷ ds) acc = divide limit ds (divide_one limit d acc)

abbrev pub all_deltas : List ClassCount → List ClassCount → List ClassDelta
all_deltas earlier later =
    let (ds, left) = later_deltas later (index_classes earlier []) in ds ++ gone_deltas left

unfoldable pub diff : ClassHistogram → ClassHistogram → ℕ → HistogramDiff
diff earlier later limit =
    let (growth, shrink) =
      divide limit (sort_by heaviest_gain_first (all_deltas earlier.classes later.classes))
        ([], []) in
    let shrink' = sort_by largest_loss_first shrink in
    record {
      growth = growth;
      shrink = if ltb 0 limit && ltb limit (length shrink') then take limit shrink' else shrink';
      total_bytes_delta = pos later.total_bytes -ℤ pos earlier.total_bytes;
    }

-- ===== src/Examples/Dumps.antt =====
-- Diagnostics of small dumps.
use apm2go.Base.{ℕ, ◌+◌, ◌≤◌, List, [], ◌∷◌, map, length, All, ◌≡◌, refl, String}
use apm2go.Base.Eq.{Bytes, codes, bytes_eq}
use apm2go.Base.Int.{◌-ℤ◌}
use apm2go.Base.Sorting.{bytes_lt, sort_by, insert_by, IsOrdered}
use apm2go.Base.Dict.{lookup, insert, erase}
use apm2go.Diag.Deadlock.{
  Thread, Source, Deadlock, waits_for, cycles, cycles_from, visit_from, found, walk, owner_of,
  from_node,
}
use apm2go.Diag.Pileup.{pileup_before, find_pileups}
use apm2go.Diag.Pileup.Exact.{IsExact, find_pileups-IsExact}
use apm2go.Diag.Histogram.{
  ClassCount, ClassHistogram, diff, later_deltas, index_classes, gone_deltas, divide,
  heaviest_gain_first,
}
use apm2go.Diag.Histogram.Balance.{sum_by, gained, lost, sizes, diff-balance}

abbrev blocked : String → String → List Bytes → Thread
blocked name lock held = record {
  name = codes name;
  state = codes "BLOCKED";
  frames = [];
  waiting_on = codes lock;
  holds = held;
}

-- Thread 0 waits for the ring that threads 1, 2 and 3 make.
abbrev ring : List Thread
ring =
    blocked "main" "0xa" []
    ∷ blocked "a" "0xb" (codes "0xa" ∷ [])
    ∷ blocked "b" "0xc" (codes "0xb" ∷ [])
    ∷ blocked "c" "0xa" (codes "0xc" ∷ codes "0xd" ∷ [])
    ∷ []

ring_found : cycles ring ≡ ((1 ∷ 2 ∷ 3 ∷ []) ∷ [])
unfolding cycles cycles_from visit_from found walk waits_for lookup owner_of insert bytes_eq
    from_node
ring_found = refl

abbrev report : Source → List String → Deadlock
report source names = record { threads = map codes names; source = source; detail = [] }

abbrev parked : String → Thread
parked frame = record {
  name = codes "w";
  state = codes "WAITING";
  frames = codes "java.lang.Object.wait(Native)" ∷ codes frame ∷ [];
  waiting_on = [];
  holds = [];
}

abbrev pool : List Thread
pool = parked "Pool.take" ∷ parked "Pool.take" ∷ parked "Other.run" ∷ parked "Pool.take" ∷ []

find_pileups-IsExact_example :
    All (IsExact pool) (find_pileups pool)
    × length (find_pileups pool) ≤ 10
    × IsOrdered pileup_before (find_pileups pool)
find_pileups-IsExact_example = find_pileups-IsExact pool

abbrev row : String → ℕ → ℕ → ClassCount
row name instances bytes = record {
  rank = 1;
  name = codes name;
  instances = instances;
  bytes = bytes;
}

abbrev dump : List ClassCount → ClassHistogram
dump rows = record {
  classes = rows;
  total_instances = 0;
  total_bytes = sizes rows;
  class_count = length rows;
}

abbrev first_dump : ClassHistogram
first_dump = dump (row "A" 2 64 ∷ row "B" 1 32 ∷ [])

abbrev second_dump : ClassHistogram
second_dump = dump (row "A" 5 160 ∷ row "C" 1 16 ∷ [])

-- Two classes of one name, as two class loaders give them.
abbrev doubled : ClassHistogram
doubled = dump (row "A" 2 64 ∷ row "A" 1 32 ∷ [])

diff-balance_example :
    sum_by gained (diff first_dump second_dump 0).growth + sizes first_dump.classes
    ≡ sum_by lost (diff first_dump second_dump 0).shrink + sizes second_dump.classes
unfolding bytes_eq
diff-balance_example = diff-balance first_dump second_dump (refl, (refl, tt))

-- A dump with a doubled name, compared with itself, shows growth.
doubled_grows : length (diff doubled doubled 0).growth ≡ 2
unfolding diff later_deltas index_classes gone_deltas sort_by insert_by insert lookup erase divide
    bytes_eq ◌-ℤ◌ heaviest_gain_first bytes_lt
doubled_grows = refl

-- ===== src/Diag/Pileup.antt =====
-- internal/jvmdiag/threaddump.go: findPileups, signatureFrame and isBlockingFrame. A group's states
-- are the set of them, and Go's map of groups is an association list.
pub mod Groups
pub mod Exact
use apm2go.Base.{
  ℕ, suc, ◌+◌, List, [], ◌∷◌, Bool, true, false, if◌then◌else◌, ◌==◌, ltb, any, take, is_empty,
  Option, none, some,
}
use apm2go.Base.Eq.{Bytes, codes, text_eq}
use apm2go.Base.Text.{has_prefix}
use apm2go.Base.Dict.{Dict, lookup, insert, add}
use apm2go.Base.Sorting.{bytes_lt, sort_by}
use apm2go.Diag.Deadlock.{Thread}

pub record Pileup : Type 0 where
  pub frame : Bytes
  pub count : ℕ
  pub states : List Bytes

abbrev pub pileup_threshold : ℕ
pileup_threshold = 3

abbrev pub max_pileups : ℕ
max_pileups = 10

abbrev pub blocking_frames : List Bytes
blocking_frames =
    codes "jdk.internal.misc.Unsafe.park"
    ∷ codes "sun.misc.Unsafe.park"
    ∷ codes "java.lang.Object.wait"
    ∷ codes "java.lang.Thread.sleep"
    ∷ codes "java.util.concurrent.locks.LockSupport.park"
    ∷ codes "java.util.concurrent.locks.AbstractQueuedSynchronizer"
    ∷ codes "sun.nio.ch."
    ∷ []

unfoldable pub is_blocking_frame : Bytes → Bool
is_blocking_frame frame = any (has_prefix frame) blocking_frames

-- The loop that looks for the frame, with what is returned when all of them block.
unfoldable pub topmost : Bytes → List Bytes → Bytes
topmost other [] = other
topmost other (f ∷ fs) = let later = topmost other fs in if is_blocking_frame f then later else f

unfoldable pub signature_frame : List Bytes → Bytes
signature_frame [] = []
signature_frame (f ∷ fs) = topmost f (f ∷ fs)

pub record Group : Type 0 where
  pub size : ℕ
  pub in_states : List Bytes

abbrev new_group : Group
new_group = record { size = 0; in_states = [] }

abbrev pub group_or_new : Option Group → Group
group_or_new none = new_group
group_or_new (some g) = g

abbrev pub grown : Bytes → Group → Group
grown state g = record {
  size = g.size + 1;
  in_states = if is_empty state then g.in_states else add state g.in_states;
}

-- One turn of the loop over the threads.
unfoldable pub group_thread : Thread → Dict Bytes Group → Dict Bytes Group
group_thread t groups =
    let frame = signature_frame t.frames in
    if is_empty frame
    then groups
    else insert frame (grown t.state (group_or_new (lookup frame groups))) groups

unfoldable pub group_threads : List Thread → Dict Bytes Group → Dict Bytes Group
group_threads [] groups = groups
group_threads (t ∷ ts) groups = group_threads ts (group_thread t groups)

-- The loop over the groups.
unfoldable pub large_groups : Dict Bytes Group → List Pileup
large_groups [] = []
large_groups ((frame, g) ∷ groups) =
    let rest = large_groups groups in
    if ltb g.size pileup_threshold
    then rest
    else record { frame = frame; count = g.size; states = sort_by bytes_lt g.in_states } ∷ rest

unfoldable pub pileup_before : Pileup → Pileup → Bool
pileup_before a b = if a.count == b.count then bytes_lt a.frame b.frame else ltb b.count a.count

unfoldable pub find_pileups : List Thread → List Pileup
find_pileups threads =
    take max_pileups (sort_by pileup_before (large_groups (group_threads threads [])))

-- ===== src/Discovery/Host.antt =====
-- internal/discovery/scanner.go on the files of one process: hasLibJVM, readStatus, startTime,
-- readBootTime, namespaceDiffers, detectNamespace. A file is its bytes or its lines, and `none` is one that
-- cannot be read.
pub mod Cgroup
pub mod Starts
use apm2go.Base.{
  ℕ, zero, suc, ◌+◌, ◌-◌, ◌*◌, ◌/◌, ◌%◌, ◌^◌, List, [], ◌∷◌, ◌++◌, Bool, true, false, not, ◌&&◌,
  ◌||◌, if◌then◌else◌, ◌==◌, ltb, leb, is_empty, length, take, drop, any, all, get_elem?, map,
  Option, none, some,
}
use apm2go.Base.Eq.{Bytes, codes, bytes_eq}
use apm2go.Base.Int.{ℤ, pos, negsuc, ◌+ℤ◌}
use apm2go.Base.Text.{cut_prefix, has_prefix, has_substring, index_byte, split, trim_space}
use apm2go.Base.Parse.{atoi, atoi_value, minus, fields}
use apm2go.Ingest.Convert.{to_int64}

-- The loop over the lines of the map of the memory.
unfoldable pub has_lib_jvm : Option (List Bytes) → Bool
has_lib_jvm none = false
has_lib_jvm (some lines) = any (λ l. has_substring l (codes "libjvm.so")) lines

pub record Ids : Type 0 where
  pub uid : ℤ
  pub gid : ℤ
  pub ns_pid : ℤ

abbrev pub second_or : ℤ → List Bytes → ℤ
second_or old (_ ∷ n ∷ _) = atoi_value n
second_or old _ = old

abbrev pub last_word : Bytes → List Bytes → Bytes
last_word w [] = w
last_word w (x ∷ xs) = last_word x xs

abbrev pub number_or : ℤ → Option ℤ → ℤ
number_or old none = old
number_or old (some n) = n

-- The last field, which is the pid in the innermost namespace.
abbrev pub last_number_or : ℤ → List Bytes → ℤ
last_number_or old (w ∷ x ∷ xs) = number_or old (atoi (last_word x xs))
last_number_or old _ = old

unfoldable pub status_line : Bytes → Ids → Ids
status_line line i =
    let words = fields line in
    if has_prefix line (codes "Uid:")
    then record i { uid = second_or i.uid words }
    else if has_prefix line (codes "Gid:")
    then record i { gid = second_or i.gid words }
    else if has_prefix line (codes "NSpid:")
    then record i { ns_pid = last_number_or i.ns_pid words }
    else i

abbrev pub status_lines : List Bytes → Ids → Ids
status_lines [] i = i
status_lines (line ∷ lines) i = status_lines lines (status_line line i)

unfoldable pub read_status : Option (List Bytes) → Ids → Ids
read_status none i = i
read_status (some lines) i = status_lines lines i

abbrev pub clock_ticks : ℕ
clock_ticks = 100

-- The low 64 bits of a product with a number, as an int64.
unfoldable pub wrapping_product : ℤ → ℕ → ℤ
wrapping_product (pos n) k = to_int64 (n * k % 2 ^ 64)
wrapping_product (negsuc n) k = to_int64 ((2 ^ 64 - suc n * k % 2 ^ 64) % 2 ^ 64)

-- Go's division, which rounds toward 0.
unfoldable pub quotient : ℤ → ℕ → ℤ
quotient (pos n) k = pos (n / k)
quotient (negsuc n) k = minus (suc n / k)

-- time.Duration(ticks) * time.Second / clockTicks
unfoldable pub since_boot : ℤ → ℤ
since_boot ticks = quotient (wrapping_product ticks 1000000000) clock_ticks

-- Where a byte stands last.
unfoldable pub last_index : ℕ → Bytes → Option ℕ
last_index b [] = none
last_index b (c ∷ s) = elim (last_index b s) [
  | some i ↦ some (suc i)
  | none ↦ if c == b then some 0 else none
]

abbrev pub atoi_of : Option Bytes → Option ℤ
atoi_of none = none
atoi_of (some s) = atoi s

abbrev pub ticks_behind : Bytes → Option ℕ → Option ℤ
ticks_behind raw none = none
ticks_behind raw (some i) =
    if ltb 0 i && ltb (i + 2) (length raw)
    then atoi_of (get_elem? (fields (drop (i + 2) raw)) 19)
    else none

-- The ticks that the stat file of a process gives.
unfoldable pub start_ticks : Bytes → Option ℤ
start_ticks raw = ticks_behind raw (last_index b')' raw)

abbrev pub ticks_of : Option Bytes → Option ℤ
ticks_of none = none
ticks_of (some raw) = start_ticks raw

-- A time is its nanoseconds since 1970; `none` is the zero time.
abbrev pub from_ticks : Option ℤ → ℤ → Option ℤ → Option ℤ
from_ticks modified boot none = modified
from_ticks modified boot (some ticks) = some (boot +ℤ since_boot ticks)

-- From the boot time, the stat file and the modification time of the process's directory.
unfoldable pub start_time_of : Option ℤ → Option Bytes → Option ℤ → Option ℤ
start_time_of none stat modified = modified
start_time_of (some boot) stat modified = from_ticks modified boot (ticks_of stat)

-- time.Unix(secs, 0) in nanoseconds.
abbrev pub seconds : ℤ → ℤ
seconds (pos n) = pos (n * 1000000000)
seconds (negsuc n) = minus (suc n * 1000000000)

abbrev pub boot_of : Option Bytes → Option ℤ
boot_of none = none
boot_of (some after) = atoi (trim_space after)

abbrev pub first_time : Option ℤ → Option ℤ → Option ℤ
first_time none later = later
first_time (some secs) later = some (seconds secs)

unfoldable pub boot_lines : List Bytes → Option ℤ
boot_lines [] = none
boot_lines (line ∷ lines) =
    first_time (boot_of (cut_prefix line (codes "btime "))) (boot_lines lines)

unfoldable pub read_boot_time : Option Bytes → Option ℤ
read_boot_time none = none
read_boot_time (some raw) = boot_lines (split 10 raw)

-- The links of the namespaces: `none` is one that cannot be read. A reference that cannot be read is
-- the empty text.
unfoldable pub namespace_differs : Option Bytes → Bytes → Bool
namespace_differs none reference = false
namespace_differs (some target) reference =
    if is_empty reference then false else not (bytes_eq target reference)

-- Whether it is in a container, and whether it shares our network.
unfoldable pub detect_namespace :
    Bool → Bytes → Option Bytes → Bytes → Option Bytes → Bytes → Bool × Bool
detect_namespace other_pid container mnt host_mnt net our_net = (
  other_pid || not (is_empty container) || namespace_differs mnt host_mnt,
  not (namespace_differs net our_net),
)

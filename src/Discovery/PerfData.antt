-- ===== src/Discovery/PerfData.antt =====
-- internal/discovery/hsperf.go: parsePerfData, cstring, indexByte and majorJavaVersion. A Go panic is
-- a result; a slice of the buffer may reach past its own end, an index may not.
pub mod Panics
pub mod Encoding
pub mod Reading
pub mod RoundTrip
use apm2go.Base.{
  ℕ, zero, suc, ◌+◌, ◌*◌, ◌^◌, List, [], ◌∷◌, ◌>>=◌, Bool, true, false, not, ◌||◌, if◌then◌else◌,
  ◌==◌, ltb, leb, Option, none, some, min, length, take, drop, get_elem?,
}
use apm2go.Base.Eq.{Bytes, codes, bytes_eq}
use apm2go.Base.Text.{trim_right}
use apm2go.Base.Int.{ℤ, pos, negsuc}
use apm2go.Base.Parse.{atoi, fields_func}

pub data ByteOrder : Type 0 where
  big_endian little_endian : ByteOrder

-- Four bytes as a number.
abbrev pub uint32_of : ByteOrder → ℕ → ℕ → ℕ → ℕ → ℕ
uint32_of big_endian a b c d = ((a * 256 + b) * 256 + c) * 256 + d
uint32_of little_endian a b c d = ((d * 256 + c) * 256 + b) * 256 + a

abbrev pub first_four : ByteOrder → Bytes → Option ℕ
first_four order (a ∷ b ∷ c ∷ d ∷ s) = some (uint32_of order a b c d)
first_four order s = none

-- order.Uint32(buf[at : at+4])
unfoldable pub uint32_at : ByteOrder → Bytes → ℕ → Option ℕ
uint32_at order buf at = first_four order (drop at buf)

abbrev pub magic : ℕ
magic = 3405693120

abbrev pub prologue_len : ℕ
prologue_len = 32

abbrev pub entry_header : ℕ
entry_header = 20

pub record PerfData : Type 0 where
  pub java_version : Bytes
  pub java_command : Bytes
  pub vm_args : Bytes
  pub vm_version : Bytes
  pub vm_name : Bytes

abbrev pub no_data : PerfData
no_data = record {
  java_version = [];
  java_command = [];
  vm_args = [];
  vm_version = [];
  vm_name = [];
}

-- What stands before the first NUL byte, or all.
unfoldable pub cstring : Bytes → Bytes
cstring [] = []
cstring (c ∷ s) = let rest = cstring s in if c == 0 then [] else c ∷ rest

-- The switch on the counter's name.
abbrev pub set_counter : Bytes → Bytes → PerfData → PerfData
set_counter name value out =
    if bytes_eq name (codes "java.property.java.version")
    then record out { java_version = value }
    else if bytes_eq name (codes "sun.rt.javaCommand")
    then record out { java_command = value }
    else if bytes_eq name (codes "java.rt.vmArgs")
    then record out { vm_args = value }
    else if bytes_eq name (codes "java.property.java.vm.version")
    then record out { vm_version = value }
    else if bytes_eq name (codes "java.property.java.vm.name")
    then record out { vm_name = value }
    else out

-- What the fields of an entry's header make of it.
unfoldable pub read_entry : Bytes → ℕ → ℕ → ℕ → ℕ → PerfData → PerfData
read_entry entry name_off vector_len data_type data_off out =
    if ltb name_off entry_header
      || leb (length entry) name_off
      || data_off == 0
      || ltb (length entry) data_off
    then out
    else if vector_len == 0 || not (data_type == b'B')
    then out
    else set_counter (cstring (drop name_off entry))
        (trim_right (λ c. c == b' ')
          (cstring (drop data_off (take (min (data_off + vector_len) (length entry)) entry))))
        out

-- The body of the loop behind its guards, at the entry's start and length; `none` is a panic.
unfoldable pub parse_entry : ByteOrder → Bytes → ℕ → ℕ → PerfData → Option PerfData
parse_entry order buf at entry_len out = do
  let entry = take entry_len (drop at buf)
  name_off ← uint32_at order buf (at + 4)
  vector_len ← uint32_at order buf (at + 8)
  data_type ← get_elem? entry 12
  data_off ← uint32_at order buf (at + 16)
  some (read_entry entry name_off vector_len data_type data_off out)

-- The loop over the entries that are left.
unfoldable pub parse_entries : ByteOrder → Bytes → ℕ → ℕ → PerfData → Option PerfData
parse_entries order buf zero at out = some out
parse_entries order buf (suc left) at out =
    if ltb (length buf) (at + entry_header) then some out else (elim (uint32_at order buf at) [
      | none ↦ none
      | some entry_len ↦
          if entry_len == 0 || ltb (length buf) (at + entry_len)
          then some out
          else (elim (parse_entry order buf at entry_len out) [
            | none ↦ none
            | some out' ↦ parse_entries order buf left (at + entry_len) out'
          ])
    ])

pub data PerfError : Type 0 where
  too_short bad_magic unsupported_version out_of_range : PerfError

pub data Parsed : Type 0 where
  parsed : PerfData → Parsed
  refused : PerfError → Parsed
  panicked : Parsed

abbrev pub order_of : ℕ → ByteOrder
order_of flag = if flag == 1 then little_endian else big_endian

abbrev pub outcome : Option PerfData → Parsed
outcome none = panicked
outcome (some out) = parsed out

abbrev pub from_header : ByteOrder → Bytes → Option ℕ → Option ℕ → Parsed
from_header order buf (some entry_offset) (some num_entries) =
    if ltb entry_offset prologue_len || ltb (length buf) entry_offset
    then refused out_of_range
    else outcome (parse_entries order buf num_entries entry_offset no_data)
from_header order buf _ _ = panicked

abbrev pub from_flags : Bytes → Option ℕ → Option ℕ → Parsed
from_flags buf (some flag) (some major) =
    if ltb major 2
    then refused unsupported_version
    else from_header (order_of flag) buf (uint32_at (order_of flag) buf 24)
        (uint32_at (order_of flag) buf 28)
from_flags buf _ _ = panicked

unfoldable pub parse_perf_data : Bytes → Parsed
parse_perf_data buf =
    if ltb (length buf) prologue_len
    then refused too_short
    else (elim (uint32_at big_endian buf 0) [
      | none ↦ panicked
      | some m ↦
          if not (m == magic)
          then refused bad_magic
          else from_flags buf (get_elem? buf 4) (get_elem? buf 5)
    ])

abbrev is_version_separator : ℕ → Bool
is_version_separator c = c == b'.' || c == b'_' || c == b'-' || c == b'+'

abbrev or_zero : Option ℤ → ℤ
or_zero none = pos 0
or_zero (some n) = n

-- The feature version, from the first number and the texts behind it.
abbrev feature_version : Option ℤ → List Bytes → ℤ
feature_version none rest = pos 0
feature_version (some (pos n)) (second ∷ rest) = if n == 1 then or_zero (atoi second) else pos n
feature_version (some n) rest = n

unfoldable pub major_java_version : Bytes → ℤ
major_java_version v = elim (fields_func is_version_separator v) [
  | [] ↦ pos 0
  | first ∷ rest ↦ feature_version (atoi first) rest
]

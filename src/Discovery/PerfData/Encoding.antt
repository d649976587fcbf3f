-- ===== src/Discovery/PerfData/Encoding.antt =====
-- About parsePerfData (internal/discovery/hsperf.go): files of given counters, as its comment lays
-- them out.
use apm2go.Base.{
  ℕ, suc, ◌+◌, ◌/◌, ◌%◌, ◌<◌, List, [], ◌∷◌, ◌++◌, Bool, false, if◌then◌else◌, ◌==◌, length, ◌≡◌,
  arith,
}
use apm2go.Base.Eq.{Bytes}
use apm2go.Base.Text.{has_byte, trim_right}
use apm2go.Discovery.PerfData.{
  ByteOrder, big_endian, little_endian, uint32_of, PerfData, set_counter,
}

-- The bytes of a number, first to last.
abbrev pub octet : ByteOrder → ℕ → ℕ → ℕ
octet big_endian n i =
    if i == 0
    then n / 16777216 % 256
    else if i == 1
    then n / 65536 % 256
    else if i == 2
    then n / 256 % 256
    else n % 256
octet little_endian n i =
    if i == 0
    then n % 256
    else if i == 1
    then n / 256 % 256
    else if i == 2
    then n / 65536 % 256
    else n / 16777216 % 256

pub uint32_of-octet :
    (order : ByteOrder) (n : ℕ)
    → n < 4294967296
    → uint32_of order (octet order n 0) (octet order n 1) (octet order n 2) (octet order n 3) ≡ n
uint32_of-octet big_endian n h = omega arith
uint32_of-octet little_endian n h = omega arith

abbrev pub put_uint32 : ByteOrder → ℕ → Bytes → Bytes
put_uint32 order n s = octet order n 0 ∷ octet order n 1 ∷ octet order n 2 ∷ octet order n 3 ∷ s

pub record Counter : Type 0 where
  pub name : Bytes
  pub value : Bytes

abbrev pub entry_len : Counter → ℕ
entry_len c = 22 + length c.name + length c.value

-- The name and the value, each with its NUL, and what follows them.
abbrev pub put_texts : Counter → Bytes → Bytes
put_texts c s = c.name ++ (0 ∷ (c.value ++ (0 ∷ s)))

-- The header of a byte vector, as the JVM lays it out, and what follows it.
abbrev pub put_header : ByteOrder → Counter → Bytes → Bytes
put_header order c s = put_uint32 order (entry_len c) (
    put_uint32 order 20 (
      put_uint32 order (suc (length c.value))
        (66 ∷ 0 ∷ 0 ∷ 0 ∷ put_uint32 order (21 + length c.name) s)))

abbrev pub put_counter : ByteOrder → Counter → Bytes → Bytes
put_counter order c s = put_header order c (put_texts c s)

abbrev pub put_counters : ByteOrder → List Counter → Bytes
put_counters order [] = []
put_counters order (c ∷ cs) = put_counter order c (put_counters order cs)

abbrev pub flag_of : ByteOrder → ℕ
flag_of big_endian = 0
flag_of little_endian = 1

-- The prologue of a file of format 2.0 with a number of entries, and what follows it.
abbrev pub put_prologue : ByteOrder → ℕ → Bytes → Bytes
put_prologue order n s = put_uint32 big_endian 3405693120 (
    flag_of order
    ∷ 2
    ∷ 0
    ∷ 1
    ∷ put_uint32 order 0 (
        put_uint32 order 0
          (put_uint32 order 0 (put_uint32 order 0 (put_uint32 order 32 (put_uint32 order n s))))))

abbrev pub put_file : ByteOrder → List Counter → Bytes
put_file order cs = put_prologue order (length cs) (put_counters order cs)

abbrev pub is_blank : ℕ → Bool
is_blank c = c == b' '

-- A name and a value that a C string and the trimming keep, and that fit.
pub record IsPlain (c : Counter) : Type 0 where
  pub name_whole : has_byte 0 c.name ≡ false
  pub value_whole : has_byte 0 c.value ≡ false
  pub value_trimmed : trim_right is_blank c.value ≡ c.value
  pub short : entry_len c < 4294967296

-- The switch over all the counters, the first one first.
abbrev pub set_counters : List Counter → PerfData → PerfData
set_counters [] out = out
set_counters (c ∷ cs) out = set_counters cs (set_counter c.name c.value out)

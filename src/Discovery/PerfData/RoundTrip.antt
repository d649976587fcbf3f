-- ===== src/Discovery/PerfData/RoundTrip.antt =====
-- About parsePerfData (internal/discovery/hsperf.go): whole files.
use apm2go.Base.{
  ℕ, ◌+◌, ◌≤◌, ◌<◌, List, [], ◌∷◌, ◌++◌, some, All, length, get_elem?, length-append, append_assoc,
  ◌≡◌, refl, sym, ap, ◌∙◌, arith,
}
use apm2go.Base.Eq.{Bytes}
use apm2go.Discovery.PerfData.Panics.{turn_parses}
use apm2go.Discovery.PerfData.{
  ByteOrder, big_endian, little_endian, uint32_of, uint32_at, PerfData, no_data, set_counter,
  parse_entries, parsed, parse_perf_data, order_of, outcome,
}
use apm2go.Discovery.PerfData.Encoding.{
  octet, uint32_of-octet, Counter, entry_len, put_counter, put_counters, flag_of, put_prologue,
  put_file, IsPlain, set_counters,
}
use apm2go.Discovery.PerfData.Reading.{
  body, body-append, length-body, uint32_at-append, parse_entry-put_counter,
}

parse_entries-put_counters :
    (order : ByteOrder) (pre : Bytes) (cs : List Counter) (out : PerfData)
    → All IsPlain cs
    → parse_entries order (pre ++ put_counters order cs) (length cs) (length pre) out
      ≡ some (set_counters cs out)
unfolding parse_entries
parse_entries-put_counters order pre [] out h = refl
parse_entries-put_counters order pre (c ∷ cs) out h =
    turn_parses order (pre ++ put_counter order c rest) (length cs) (length pre) (entry_len c) out _
      (omega (arith, whole_length))
      (start_at
        ∙ uint32_at-append order pre (put_counter order c rest) 0
        ∙ ap some (uint32_of-octet order (entry_len c) h.0.short))
      (omega arith) (omega (arith, whole_length)) (parse_entry-put_counter order c h.0 pre rest out)
    ∙ ap (λ n. parse_entries order (pre ++ put_counter order c rest) (length cs) n out')
        (sym body_end)
    ∙ ap (λ b. parse_entries order b (length cs) (length (pre ++ body order c)) out') regroup
    ∙ parse_entries-put_counters order (pre ++ body order c) cs out' h.1
  where
    rest : Bytes
    rest = put_counters order cs

    out' : PerfData
    out' = set_counter c.name c.value out

    regroup : pre ++ put_counter order c rest ≡ (pre ++ body order c) ++ rest
    regroup =
        ap (λ s. pre ++ s) (body-append order c rest) ∙ sym (append_assoc pre (body order c) rest)

    body_end : length (pre ++ body order c) ≡ length pre + entry_len c
    body_end = length-append pre (body order c) ∙ ap (λ n. length pre + n) (length-body order c)

    whole_length : length (pre ++ put_counter order c rest) ≡ length pre + entry_len c + length rest
    whole_length =
        ap length regroup
        ∙ length-append (pre ++ body order c) rest
        ∙ ap (λ n. n + length rest) body_end

    start_at :
        uint32_at order (pre ++ put_counter order c rest) (length pre)
        ≡ uint32_at order (pre ++ put_counter order c rest) (length pre + 0)
    start_at = ap (uint32_at order (pre ++ put_counter order c rest)) (no_more (length pre))
      where
        no_more : (n : ℕ) → n ≡ n + 0
        no_more n = omega arith

parse_perf_data-from_header :
    (buf : Bytes) (flag count : ℕ)
    → 32 ≤ length buf
    → uint32_at big_endian buf 0 ≡ some 3405693120
    → get_elem? buf 4 ≡ some flag
    → get_elem? buf 5 ≡ some 2
    → uint32_at (order_of flag) buf 24 ≡ some 32
    → uint32_at (order_of flag) buf 28 ≡ some count
    → parse_perf_data buf ≡ outcome (parse_entries (order_of flag) buf count 32 no_data)
unfolding parse_perf_data
parse_perf_data-from_header buf flag count h m f v o c = rw (m, f, v, o, c) (ground arith)

-- The parser reads the counters that a file holds, in either byte order: those whose names it does
-- not know change nothing, and of several with one name the last one counts. The condition is that
-- names and values hold no NUL byte, values do not end in a space, and lengths fit 32 bits.
pub parse_perf_data-put_file :
    (order : ByteOrder) (cs : List Counter)
    → All IsPlain cs
    → length cs < 4294967296
    → parse_perf_data (put_file order cs) ≡ parsed (set_counters cs no_data)
unfolding uint32_at
parse_perf_data-put_file order cs h l =
    parse_perf_data-from_header buf (flag_of order) (length cs) (omega arith) refl refl refl
      (word 32 24 (omega arith) refl) (word (length cs) 28 l refl)
    ∙ ap (λ o. outcome (parse_entries o buf (length cs) 32 no_data)) (flag_order order)
    ∙ ap outcome (parse_entries-put_counters order (put_prologue order (length cs) []) cs no_data h)
  where
    buf : Bytes
    buf = put_file order cs

    flag_order : (o : ByteOrder) → order_of (flag_of o) ≡ o
    flag_order big_endian = refl
    flag_order little_endian = refl

    word :
        (n : ℕ) (at : ℕ)
        → n < 4294967296
        → uint32_at order buf at
          ≡ some (
              uint32_of order
                (octet order n 0)
                (octet order n 1)
                (octet order n 2)
                (octet order n 3))
        → uint32_at (order_of (flag_of order)) buf at ≡ some n
    word n at b e =
        ap (λ o. uint32_at o buf at) (flag_order order) ∙ e ∙ ap some (uint32_of-octet order n b)

-- ===== src/Discovery/PerfData/Panics.antt =====
-- About parsePerfData (internal/discovery/hsperf.go): the turns of its loop and their panics.
use apm2go.Base.{
  ℕ, zero, suc, ◌+◌, ◌≤◌, ◌<◌, List, [], ◌∷◌, ◌||◌, if◌then◌else◌, ◌==◌, ltb, Option, none, some,
  length, take, drop, length-take, length-drop, get_elem?, ◌≡◌, refl, ◌↔◌, ◌⊎◌, inl, inr, sym, ◌∙◌,
  arith, lt_or_le, Option-conflict,
}
use apm2go.Base.Eq.{Bytes}
use apm2go.Discovery.PerfData.{
  ByteOrder, first_four, uint32_at, PerfData, read_entry, parse_entry, parse_entries, entry_header,
}

get_elem?-some {ℓ} :
    {A : Type ℓ} (xs : List A) (i : ℕ) → i < length xs → (a : A) × (get_elem? xs i ≡ some a)
get_elem?-some [] i h = absurd (omega arith)
get_elem?-some (x ∷ xs) zero h = (x, refl)
get_elem?-some (x ∷ xs) (suc i) h = get_elem?-some xs i (omega arith)

get_elem?-none {ℓ} : {A : Type ℓ} (xs : List A) (i : ℕ) → length xs ≤ i → get_elem? xs i ≡ none
get_elem?-none [] i h = refl
get_elem?-none (x ∷ xs) zero h = absurd (omega arith)
get_elem?-none (x ∷ xs) (suc i) h = get_elem?-none xs i (omega arith)

first_four-some :
    (order : ByteOrder) (s : Bytes) → 4 ≤ length s → (n : ℕ) × (first_four order s ≡ some n)
first_four-some order (a ∷ b ∷ c ∷ d ∷ s) h = (_, refl)
first_four-some order [] h = absurd (omega arith)
first_four-some order (a ∷ []) h = absurd (omega arith)
first_four-some order (a ∷ b ∷ []) h = absurd (omega arith)
first_four-some order (a ∷ b ∷ c ∷ []) h = absurd (omega arith)

pub uint32_at-some :
    (order : ByteOrder) (buf : Bytes) (at : ℕ)
    → at + 4 ≤ length buf
    → (n : ℕ) × (uint32_at order buf at ≡ some n)
unfolding uint32_at
uint32_at-some order buf at h =
    first_four-some order (drop at buf) (omega (arith, length-drop at buf))

-- Some entry that the loop reaches, of those that are left from one on, is longer than nothing but
-- ends before its data type, which stands at its index 12.
pub data ShortEntry (order : ByteOrder) (buf : Bytes) : ℕ → ℕ → Type 0 where
  here :
      (left at n : ℕ)
      → at + entry_header ≤ length buf
      → uint32_at order buf at ≡ some n
      → 0 < n
      → n ≤ 12
      → ShortEntry order buf (suc left) at
  later :
      (left at n : ℕ)
      → at + entry_header ≤ length buf
      → uint32_at order buf at ≡ some n
      → 13 ≤ n
      → at + n ≤ length buf
      → ShortEntry order buf left (at + n)
      → ShortEntry order buf (suc left) at

module _ (order : ByteOrder) (buf : Bytes) where
  entry_short :
      (at n : ℕ) (out : PerfData)
      → at + 20 ≤ length buf
      → n ≤ 12
      → parse_entry order buf at n out ≡ none
  unfolding parse_entry
  entry_short at n out h s =
      let (a, ea) = uint32_at-some order buf (at + 4) (omega arith) in
      let (b, eb) = uint32_at-some order buf (at + 8) (omega arith) in
      rw
        (
          ea,
          eb,
          get_elem?-none (take n (drop at buf)) 12 (omega (arith, length-take n (drop at buf))),
        )
        refl

  entry_long :
      (at n : ℕ) (out : PerfData)
      → at + 20 ≤ length buf
      → 13 ≤ n
      → (out' : PerfData) × (parse_entry order buf at n out ≡ some out')
  unfolding parse_entry
  entry_long at n out h s =
      let (a, ea) = uint32_at-some order buf (at + 4) (omega arith) in
      let (b, eb) = uint32_at-some order buf (at + 8) (omega arith) in
      let (c, ec) = uint32_at-some order buf (at + 16) (omega arith) in
      let (t, et) =
        get_elem?-some (take n (drop at buf)) 12
          (omega (arith, length-take n (drop at buf), length-drop at buf)) in
      (read_entry (take n (drop at buf)) a b t c out, rw (ea, eb, et, ec) refl)

  -- One turn of the loop, by what the entry's length is.
  at_length : ℕ → ℕ → ℕ → PerfData → Option PerfData
  at_length left at n out =
      if n == 0 || ltb (length buf) (at + n)
      then some out
      else (elim (parse_entry order buf at n out) [
        | none ↦ none
        | some out' ↦ parse_entries order buf left (at + n) out'
      ])

  turn_ends :
      (left at : ℕ) (out : PerfData)
      → length buf < at + 20
      → parse_entries order buf (suc left) at out ≡ some out
  unfolding parse_entries
  turn_ends left at out h = ground arith

  turn_reads :
      (left at n : ℕ) (out : PerfData)
      → at + 20 ≤ length buf
      → uint32_at order buf at ≡ some n
      → parse_entries order buf (suc left) at out ≡ at_length left at n out
  unfolding parse_entries at_length
  turn_reads left at n out h e = rw e (ground arith)

  -- A turn that reads its entry.
  pub turn_parses :
      (left at n : ℕ) (out out' : PerfData)
      → at + 20 ≤ length buf
      → uint32_at order buf at ≡ some n
      → 0 < n
      → at + n ≤ length buf
      → parse_entry order buf at n out ≡ some out'
      → parse_entries order buf (suc left) at out ≡ parse_entries order buf left (at + n) out'
  unfolding at_length
  turn_parses left at n out out' h e p f r = turn_reads left at n out h e ∙ rw r (ground arith)

  at_short :
      (left at n : ℕ) (out : PerfData)
      → at + 20 ≤ length buf
      → 0 < n
      → n ≤ 12
      → at_length left at n out ≡ none
  unfolding at_length
  at_short left at n out h p s = rw (entry_short at n out h s) (ground arith)

  at_long :
      (left at n : ℕ) (out : PerfData)
      → at + 20 ≤ length buf
      → 13 ≤ n
      → at + n ≤ length buf
      → (out' : PerfData) × (at_length left at n out ≡ parse_entries order buf left (at + n) out')
  unfolding at_length
  at_long left at n out h l f =
      let (out', e) = entry_long at n out h l in (out', rw e (ground arith))

  at_end :
      (left at n : ℕ) (out : PerfData)
      → (n ≡ 0) ⊎ (length buf < at + n)
      → at_length left at n out ≡ some out
  unfolding at_length
  at_end left at n out h = ground arith

  ShortEntry→panic :
      (left at : ℕ) (out : PerfData)
      → ShortEntry order buf left at
      → parse_entries order buf left at out ≡ none
  ShortEntry→panic _ _ out (here left at n h e p s) =
      turn_reads left at n out h e ∙ at_short left at n out h p s
  ShortEntry→panic _ _ out (later left at n h e l f short) =
      let (out', c) = at_long left at n out h l f in
      turn_reads left at n out h e ∙ c ∙ ShortEntry→panic left (at + n) out' short

  no_more : (at : ℕ) (out : PerfData) → parse_entries order buf zero at out ≡ some out
  unfolding parse_entries
  no_more at out = refl

  panic→ShortEntry :
      (left at : ℕ) (out : PerfData)
      → parse_entries order buf left at out ≡ none
      → ShortEntry order buf left at
  panic→ShortEntry zero at out h = Option-conflict _ out (no_more at out) h
  panic→ShortEntry (suc left) at out h = elim (lt_or_le (length buf) (at + 20)) [
    | inl over ↦ Option-conflict _ out (turn_ends left at out over) h
    | inr within ↦
        let (n, e) = uint32_at-some order buf at (omega arith) in
        let at_n = sym (turn_reads left at n out within e) ∙ h in
        elim (length_cases at n) [
          | inl stop ↦ Option-conflict _ out (at_end left at n out stop) at_n
          | inr (inl (p, s)) ↦ here left at n within e p s
          | inr (inr (l, f)) ↦
              let (out', c) = at_long left at n out within l f in
              later left at n within e l f (panic→ShortEntry left (at + n) out' (sym c ∙ at_n))
        ]
  ]
    where
      length_cases :
          (at n : ℕ)
          → ((n ≡ 0) ⊎ (length buf < at + n))
            ⊎ ((0 < n) × (n ≤ 12))
            ⊎ ((13 ≤ n) × (at + n ≤ length buf))
      length_cases at n = omega arith

  -- The loop over the entries panics exactly if it reaches an entry whose length is between 1 and 12
  -- while at least 20 bytes of the buffer are left: the guards let such an entry through, and its
  -- data type is beyond its end.
  pub panics_iff_ShortEntry :
      (left at : ℕ) (out : PerfData)
      → (parse_entries order buf left at out ≡ none) ↔ ShortEntry order buf left at
  panics_iff_ShortEntry left at out = (panic→ShortEntry left at out, ShortEntry→panic left at out)

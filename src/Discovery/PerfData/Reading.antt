-- ===== src/Discovery/PerfData/Reading.antt =====
-- About parsePerfData (internal/discovery/hsperf.go): one entry.
use apm2go.Base.{
  ℕ, suc, ◌+◌, ◌≤◌, ◌<◌, [], ◌∷◌, ◌++◌, false, ◌||◌, if◌then◌else◌, ◌==◌, ltb, leb, some, min,
  length, take, drop, length-append, ◌≡◌, refl, sym, ap, ◌∙◌, arith,
}
use apm2go.Base.Eq.{Bytes}
use apm2go.Base.Text.{has_byte, trim_right}
use apm2go.Discovery.PerfData.{
  ByteOrder, first_four, uint32_at, PerfData, cstring, set_counter, read_entry, parse_entry,
}
use apm2go.Discovery.PerfData.Encoding.{
  uint32_of-octet, Counter, entry_len, put_texts, put_header, put_counter, is_blank, IsPlain,
}

cstring-append : (s t : Bytes) → has_byte 0 s ≡ false → cstring (s ++ 0 ∷ t) ≡ s
unfolding cstring has_byte
cstring-append [] t h = refl
cstring-append (c ∷ s) t h = ground (arith, cstring-append s t)

drop-append : (xs ys : Bytes) (k : ℕ) → drop (length xs + k) (xs ++ ys) ≡ drop k ys
drop-append [] ys k = ap (λ n. drop n ys) (omega arith)
drop-append (x ∷ xs) ys k =
    ap (λ n. drop n (x ∷ xs ++ ys)) (plus_suc (length xs) k) ∙ drop-append xs ys k
  where
    plus_suc : (a b : ℕ) → suc a + b ≡ suc (a + b)
    plus_suc a b = omega arith

take-append : (xs ys : Bytes) → take (length xs) (xs ++ ys) ≡ xs
take-append [] ys = refl
take-append (x ∷ xs) ys = ap (◌∷◌ x) (take-append xs ys)

-- The bytes of an entry, without what follows it.
abbrev pub body : ByteOrder → Counter → Bytes
body order c = put_counter order c []

pub body-append :
    (order : ByteOrder) (c : Counter) (s : Bytes) → put_counter order c s ≡ body order c ++ s
body-append order c s = ap (put_header order c) (texts-append c.value c.name)
  where
    value-append : (v : Bytes) → v ++ (0 ∷ s) ≡ (v ++ (0 ∷ [])) ++ s
    value-append [] = refl
    value-append (x ∷ v) = ap (◌∷◌ x) (value-append v)

    texts-append : (v n : Bytes) → n ++ (0 ∷ (v ++ (0 ∷ s))) ≡ (n ++ (0 ∷ (v ++ (0 ∷ [])))) ++ s
    texts-append v [] = ap (◌∷◌ 0) (value-append v)
    texts-append v (x ∷ n) = ap (◌∷◌ x) (texts-append v n)

pub length-body : (order : ByteOrder) (c : Counter) → length (body order c) ≡ entry_len c
length-body order c =
    omega (arith, length-append c.name (0 ∷ (c.value ++ (0 ∷ []))), length-append c.value (0 ∷ []))

-- An entry of the right form sets its counter.
read_entry-set_counter :
    (entry : Bytes) (name_off vector_len data_off : ℕ) (n v : Bytes) (out : PerfData)
    → 20 ≤ name_off
    → name_off < length entry
    → 0 < data_off
    → data_off ≤ length entry
    → 0 < vector_len
    → cstring (drop name_off entry) ≡ n
    → trim_right is_blank
        (cstring (drop data_off (take (min (data_off + vector_len) (length entry)) entry)))
      ≡ v
    → read_entry entry name_off vector_len 66 data_off out ≡ set_counter n v out
unfolding read_entry
read_entry-set_counter entry at vl d n v out h1 h2 h3 h4 h5 en ev =
    (ap (λ b. if b then out else rest) guard
      ∙ ap (λ b. if b then out else set) not_empty
      ∙ ap (λ m. set_counter m value out) en
      ∙ ap (λ m. set_counter n m out) ev)
  where
    value : Bytes
    value = trim_right is_blank (cstring (drop d (take (min (d + vl) (length entry)) entry)))

    set : PerfData
    set = set_counter (cstring (drop at entry)) value out

    rest : PerfData
    rest = if vl == 0 || false then out else set

    guard : (ltb at 20 || leb (length entry) at || d == 0 || ltb (length entry) d) ≡ false
    guard = ground arith

    not_empty : (vl == 0 || false) ≡ false
    not_empty = ground arith

pub uint32_at-append :
    (order : ByteOrder) (pre x : Bytes) (k : ℕ)
    → uint32_at order (pre ++ x) (length pre + k) ≡ first_four order (drop k x)
unfolding uint32_at
uint32_at-append order pre x k = ap (first_four order) (drop-append pre x k)

module _ (order : ByteOrder) (c : Counter) (p : IsPlain c) where
  value_part :
      drop (21 + length c.name) (
        take
          (min (21 + length c.name + suc (length c.value)) (length (body order c)))
          (body order c))
      ≡ c.value ++ (0 ∷ [])
  value_part =
      ap (λ n. drop (21 + length c.name) (take n (body order c))) whole
      ∙ ap (drop (21 + length c.name)) (take_all (body order c))
      ∙ (past_name (length c.name) ∙ drop-append c.name (0 ∷ (c.value ++ (0 ∷ []))) 1)
    where
      whole :
          min (21 + length c.name + suc (length c.value)) (length (body order c))
          ≡ length (body order c)
      whole = omega (arith, length-body order c)

      take_all : (xs : Bytes) → take (length xs) xs ≡ xs
      take_all [] = refl
      take_all (x ∷ xs) = ap (◌∷◌ x) (take_all xs)

      past_name : (n : ℕ) → drop (21 + n) (body order c) ≡ drop (n + 1) (put_texts c [])
      past_name n =
          ap (λ k. drop k (body order c)) (same n)
          ∙ drop-append (put_header order c []) (put_texts c []) (n + 1)
        where
          same : (m : ℕ) → 21 + m ≡ 20 + (m + 1)
          same m = omega arith

  read_entry-body :
      (out : PerfData)
      → read_entry (body order c) 20 (suc (length c.value)) 66 (21 + length c.name) out
        ≡ set_counter c.name c.value out
  read_entry-body out =
      read_entry-set_counter (body order c) 20 (suc (length c.value)) (21 + length c.name) c.name
        c.value out (omega arith) (omega (arith, length-body order c)) (omega arith)
        (omega (arith, length-body order c)) (omega arith) (cstring-append c.name _ p.name_whole)
        (ap (λ s. trim_right is_blank (cstring s)) value_part
          ∙ ap (trim_right is_blank) (cstring-append c.value [] p.value_whole)
          ∙ p.value_trimmed)

  entry_part :
      (pre s : Bytes)
      → take (entry_len c) (drop (length pre) (pre ++ put_counter order c s)) ≡ body order c
  entry_part pre s =
      ap (take (entry_len c)) (drop_first pre ∙ body-append order c s)
      ∙ ap (λ n. take n (body order c ++ s)) (sym (length-body order c))
      ∙ take-append (body order c) s
    where
      drop_first :
          (xs : Bytes) → drop (length xs) (xs ++ put_counter order c s) ≡ put_counter order c s
      drop_first [] = refl
      drop_first (x ∷ xs) = drop_first xs

  pub parse_entry-put_counter :
      (pre s : Bytes) (out : PerfData)
      → parse_entry order (pre ++ put_counter order c s) (length pre) (entry_len c) out
        ≡ some (set_counter c.name c.value out)
  unfolding parse_entry
  parse_entry-put_counter pre s out =
      rw
        (
          uint32_at-append order pre (put_counter order c s) 4,
          uint32_at-append order pre (put_counter order c s) 8,
          uint32_at-append order pre (put_counter order c s) 16,
          entry_part pre s,
          uint32_of-octet order 20 (omega arith),
          uint32_of-octet order (suc (length c.value)) (fits p.short),
          uint32_of-octet order (21 + length c.name) (fits' p.short),
        )
        (ap some (read_entry-body out))
    where
      fits : entry_len c < 4294967296 → suc (length c.value) < 4294967296
      fits h = omega arith

      fits' : entry_len c < 4294967296 → 21 + length c.name < 4294967296
      fits' h = omega arith

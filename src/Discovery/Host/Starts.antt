-- ===== src/Discovery/Host/Starts.antt =====
-- About startTime (internal/discovery/scanner.go): when the product of the ticks overflows.
use apm2go.Base.{
  ℕ, suc, ◌+◌, ◌*◌, ◌%◌, ◌^◌, ◌<◌, ◌≤◌, ◌↔◌, ◌≡◌, refl, ap, ◌∙◌, ltb, arith, lt_or_le, inl, inr, [],
  ◌∷◌, ◌++◌, true, false, ◌&&◌, Option, none, some, length, length-append, drop, get_elem?,
}
use apm2go.Base.Eq.{Bytes}
use apm2go.Base.Int.{ℤ, pos, pos_part, ◌+ℤ◌}
use apm2go.Base.Text.{has_byte}
use apm2go.Base.Parse.{atoi, fields}
use apm2go.Ingest.Convert.{to_int64}
use apm2go.Discovery.Host.{
  wrapping_product, quotient, since_boot, last_index, start_ticks, start_time_of, from_ticks,
  ticks_of, ticks_behind, atoi_of,
}

part_le : (m : ℕ) → m < 2 ^ 64 → pos_part (quotient (to_int64 m) 100) ≤ 92233720368547758
unfolding quotient to_int64
part_le m h = ground arith

in_range : (n : ℕ) → n * 1000000000 < 2 ^ 63 → since_boot (pos n) ≡ pos (n * 10000000)
unfolding since_boot quotient wrapping_product to_int64
in_range n h = ground arith

out_of_range : (n : ℕ) → 2 ^ 63 ≤ n * 1000000000 → 92233720368547758 < n * 10000000
out_of_range n h = omega arith

wrapped_le : (n : ℕ) → pos_part (since_boot (pos n)) ≤ 92233720368547758
unfolding since_boot wrapping_product
wrapped_le n = part_le (n * 1000000000 % 2 ^ 64) (omega arith)

-- n ticks of a hundredth of a second, n not negative, become that many nanoseconds after the boot exactly
-- when n times 10^9 fits an int64, that is up to 9223372036 ticks, which are two years and eleven months.
pub since_boot_iff : (n : ℕ) → (since_boot (pos n) ≡ pos (n * 10000000)) ↔ (n * 1000000000 < 2 ^ 63)
since_boot_iff n = (λ e. fits e, in_range n)
  where
    fits : since_boot (pos n) ≡ pos (n * 10000000) → n * 1000000000 < 2 ^ 63
    fits e = elim (lt_or_le (n * 1000000000) (2 ^ 63)) [
      | inl small ↦ small
      | inr large ↦ omega (arith, wrapped_le n, out_of_range n large, ap pos_part e)
    ]

last_index-none : (b : ℕ) (s : Bytes) → has_byte b s ≡ false → last_index b s ≡ none
unfolding last_index has_byte
last_index-none b [] h = refl
last_index-none b (c ∷ s) h = ground (arith, last_index-none b s)

last_index-append :
    (b : ℕ) (front rest : Bytes)
    → has_byte b rest ≡ false
    → last_index b (front ++ (b ∷ rest)) ≡ some (length front)
unfolding last_index
last_index-append b [] rest h = rw (last_index-none b rest h) ground arith
last_index-append b (c ∷ front) rest h = rw (last_index-append b front rest h) refl

drop-append :
    (front : Bytes) (b c : ℕ) (rest : Bytes)
    → drop (length front + 2) (front ++ (b ∷ c ∷ rest)) ≡ rest
drop-append [] b c rest = refl
drop-append (x ∷ front) b c rest =
    ap (λ k. drop k (x ∷ (front ++ (b ∷ c ∷ rest)))) (one_more (length front))
    ∙ drop-append front b c rest
  where
    one_more : (n : ℕ) → suc n + 2 ≡ suc (n + 2)
    one_more n = omega arith

-- Whatever the name of the command between the parentheses holds, blanks and closing parentheses
-- included: the start time is the boot time and the ticks of the 22nd field. The conditions are that the
-- boot time is known, that something stands before the last closing parenthesis, a blank and then fields
-- without one behind it, and that the 22nd field is a number that is not negative and fits an int64 when
-- it is multiplied by 10^9.
pub start_time-any_command :
    (boot : ℤ) (modified : Option ℤ) (front rest field : Bytes) (n : ℕ)
    → 0 < length front
    → 0 < length rest
    → has_byte b')' (b' ' ∷ rest) ≡ false
    → get_elem? (fields rest) 19 ≡ some field
    → atoi field ≡ some (pos n)
    → n * 1000000000 < 2 ^ 63
    → start_time_of (some boot) (some (front ++ (b')' ∷ b' ' ∷ rest))) modified
      ≡ some (boot +ℤ pos (n * 10000000))
unfolding start_time_of start_ticks
start_time-any_command boot modified front rest field n f r h g a small =
    ap (from_ticks modified boot) ticks ∙ ap (λ t. some (boot +ℤ t)) (in_range n small)
  where
    long :
        (ltb 0 (length front) && ltb (length front + 2) (length (front ++ (b')' ∷ b' ' ∷ rest))))
        ≡ true
    long = ground (arith, length-append front (b')' ∷ b' ' ∷ rest))

    ticks : ticks_of (some (front ++ (b')' ∷ b' ' ∷ rest))) ≡ some (pos n)
    ticks =
        ap (ticks_behind _) (last_index-append b')' front (b' ' ∷ rest) h)
        ∙ rw long (
            ap (λ s. atoi_of (get_elem? (fields s) 19)) (drop-append front b')' b' ' rest)
            ∙ (ap atoi_of g ∙ a))

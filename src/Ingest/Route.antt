-- ===== src/Ingest/Route.antt =====
-- internal/receiver/route.go, over bytes: no rune above ASCII is a digit, a hex digit or a dash, so
-- walking runes or bytes answers the same.
pub mod Shape
pub mod Groups
pub mod Query
use apm2go.Base.{
  ℕ, ◌+◌, ◌≤◌, List, [], ◌∷◌, ◌++◌, map, Bool, true, false, not, ◌&&◌, ◌||◌, if◌then◌else◌, ltb,
  leb, ◌==◌, length, is_empty, take, drop, Option, none, some, All, ◌≡◌, refl, arith, inl, inr,
  Bool-cases, length-append, length-take,
}
use apm2go.Base.Eq.{Bytes, codes, bytes_eq}
use apm2go.Base.Text.{has_prefix, index_byte, join, split, trim_left, trim_right, has_byte}

abbrev pub max_route_segments : ℕ
max_route_segments = 8

abbrev pub min_digit_run : ℕ
min_digit_run = 4

abbrev pub is_digit : ℕ → Bool
is_digit c = leb 48 c && leb c 57

abbrev pub is_hex_digit : ℕ → Bool
is_hex_digit c = is_digit c || ((leb 97 c && leb c 102) || (leb 65 c && leb c 70))

unfoldable pub is_all_digits : Bytes → Bool
is_all_digits [] = true
is_all_digits (c ∷ s) = is_digit c && is_all_digits s

unfoldable pub all_hex : Bytes → Bool
all_hex [] = true
all_hex (c ∷ s) = is_hex_digit c && all_hex s

abbrev pub is_dash_place : ℕ → Bool
is_dash_place i = i == 8 || (i == 13 || (i == 18 || i == 23))

-- The loop of `isUUID`, from an index on.
unfoldable pub uuid_from : ℕ → Bytes → Bool
uuid_from i [] = true
uuid_from i (c ∷ s) = (if is_dash_place i then c == 45 else is_hex_digit c) && uuid_from (i + 1) s

unfoldable pub is_uuid : Bytes → Bool
unfolding uuid_from
is_uuid s = length s == 36 && uuid_from 0 s

unfoldable pub is_long_hex : Bytes → Bool
unfolding all_hex
is_long_hex s = leb 16 (length s) && all_hex s

-- The loop of `hasLongDigitRun`, with the run so far.
unfoldable pub digit_run_from : ℕ → Bytes → Bool
digit_run_from run [] = false
digit_run_from run (c ∷ s) =
    let more = digit_run_from (run + 1) s in
    let again = digit_run_from 0 s in
    if is_digit c then (if leb min_digit_run (run + 1) then true else more) else again

unfoldable pub has_long_digit_run : Bytes → Bool
unfolding digit_run_from
has_long_digit_run s = digit_run_from 0 s

unfoldable pub is_identifier_segment : Bytes → Bool
is_identifier_segment seg =
    not (is_empty seg)
    && (is_all_digits seg || (is_uuid seg || (is_long_hex seg || has_long_digit_run seg)))

-- What follows the first "://".
unfoldable pub after_scheme : Bytes → Option Bytes
after_scheme [] = none
after_scheme (c ∷ s) =
    let later = after_scheme s in
    if has_prefix (c ∷ s) (codes "://") then some (drop 2 s) else later

unfoldable pub from_slash : Bytes → Bytes
from_slash rest = elim (index_byte rest 47) [ none ↦ codes "/" | some j ↦ drop j rest ]

unfoldable pub path_of : Bytes → Bytes
path_of raw = elim (after_scheme raw) [ none ↦ raw | some rest ↦ from_slash rest ]

-- Up to the first '?' or '#'.
unfoldable pub without_query : Bytes → Bytes
without_query [] = []
without_query (c ∷ s) = let rest = without_query s in if c == 63 || c == 35 then [] else c ∷ rest

abbrev pub is_slash : ℕ → Bool
is_slash c = c == 47

unfoldable pub segments_of : Bytes → List Bytes
segments_of raw = split 47 (trim_right is_slash (trim_left is_slash raw))

unfoldable pub capped : List Bytes → List Bytes
capped segments =
    if ltb max_route_segments (length segments)
    then take max_route_segments segments ++ codes "*" ∷ []
    else segments

abbrev pub id_label : Bytes
id_label = codes "{id}"

unfoldable pub template : List Bytes → List Bytes
template [] = []
template (seg ∷ segments) =
    (if is_identifier_segment seg then id_label else seg) ∷ template segments

unfoldable pub normalize_route : Bytes → Bytes
normalize_route raw =
    if is_empty raw
    then []
    else (let path = without_query (path_of raw) in
        if is_empty path || bytes_eq path (codes "/")
        then codes "/"
        else codes "/" ++ join (codes "/") (template (capped (segments_of path))))

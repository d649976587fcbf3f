-- ===== src/Ingest/Ids.antt =====
-- internal/model/span.go: the identifiers, their text and their JSON, of which the quotes are left out;
-- and the names of kinds and statuses.
use apm2go.Base.{
  ℕ, ◌+◌, ◌-◌, ◌*◌, ◌/◌, ◌%◌, ◌<◌, [], ◌∷◌, Bool, true, false, ◌&&◌, if◌then◌else◌, ◌==◌, ltb, leb,
  length, is_empty, all, All, replicate, Option, none, some, ◌≡◌, refl, ap, ◌∙◌, arith, ==_iff,
}
use apm2go.Base.Eq.{Bytes, codes}

abbrev pub hex_digit : ℕ → ℕ
hex_digit d = if ltb d 10 then 48 + d else 87 + d

-- hex.EncodeToString
unfoldable pub hex_text : Bytes → Bytes
hex_text [] = []
hex_text (b ∷ bs) = hex_digit (b / 16) ∷ hex_digit (b % 16) ∷ hex_text bs

abbrev pub hex_value : ℕ → Option ℕ
hex_value c =
    if leb 48 c && leb c 57
    then some (c - 48)
    else if leb 97 c && leb c 102
    then some (c - 87)
    else if leb 65 c && leb c 70
    then some (c - 55)
    else none

abbrev pub hex_pair : Option ℕ → Option ℕ → Option Bytes → Option Bytes
hex_pair (some h) (some l) (some bs) = some ((h * 16 + l) ∷ bs)
hex_pair (some h) (some l) none = none
hex_pair (some h) none rest = none
hex_pair none low rest = none

-- hex.DecodeString
unfoldable pub hex_bytes : Bytes → Option Bytes
hex_bytes [] = some []
hex_bytes (c ∷ []) = none
hex_bytes (c ∷ d ∷ s) = hex_pair (hex_value c) (hex_value d) (hex_bytes s)

abbrev pub of_size : ℕ → Option Bytes → Option Bytes
of_size size none = none
of_size size (some id) = if length id == size then some id else none

-- ParseTraceID at 16 and ParseSpanID at 8; `none` is an IDError.
unfoldable pub parse_id : ℕ → Bytes → Option Bytes
parse_id size s = of_size size (hex_bytes s)

abbrev pub is_zero_bytes : Bytes → Bool
is_zero_bytes = all (λ b. b == 0)

unfoldable pub marshal_hex_id : Bytes → Bool → Bytes
marshal_hex_id raw empty_when_zero =
    if empty_when_zero && is_zero_bytes raw then [] else hex_text raw

-- Into an id of a size; the empty text clears it.
unfoldable pub unmarshal_hex_id : ℕ → Bytes → Option Bytes
unfolding parse_id
unmarshal_hex_id size s = if is_empty s then some (replicate size 0) else parse_id size s

-- SpanKind.String and StatusCode.String
unfoldable pub kind_name : ℕ → Bytes
kind_name k =
    if k == 1
    then codes "internal"
    else if k == 2
    then codes "server"
    else if k == 3
    then codes "client"
    else if k == 4
    then codes "producer"
    else if k == 5
    then codes "consumer"
    else codes "unspecified"

unfoldable pub status_name : ℕ → Bytes
status_name s = if s == 1 then codes "ok" else if s == 2 then codes "error" else codes "unset"

abbrev pub IsByteString : Bytes → Type 0
IsByteString = All (λ b. b < 256)

hex_value-hex_digit : (d : ℕ) → d < 16 → hex_value (hex_digit d) ≡ some d
hex_value-hex_digit d h = ground arith

hex_bytes-hex_text : (id : Bytes) → IsByteString id → hex_bytes (hex_text id) ≡ some id
unfolding hex_bytes hex_text
hex_bytes-hex_text [] h = refl
hex_bytes-hex_text (b ∷ bs) h =
    ap (λ x. hex_pair x (hex_value (hex_digit (b % 16))) (hex_bytes (hex_text bs)))
      (hex_value-hex_digit (b / 16) (omega (arith, h.0)))
    ∙ ap (λ x. hex_pair (some (b / 16)) x (hex_bytes (hex_text bs)))
        (hex_value-hex_digit (b % 16) (omega arith))
    ∙ ap (hex_pair (some (b / 16)) (some (b % 16))) (hex_bytes-hex_text bs h.1)
    ∙ ap (λ n. some (n ∷ bs)) (whole b)
  where
    whole : (n : ℕ) → n / 16 * 16 + n % 16 ≡ n
    whole n = omega arith

zeros : (id : Bytes) → is_zero_bytes id ≡ true → replicate (length id) 0 ≡ id
zeros [] h = refl
zeros (b ∷ bs) h =
    ap (λ r. 0 ∷ r) (zeros bs (ground (arith, h))) ∙ ap (λ c. c ∷ bs) (first b (ground (arith, h)))
  where
    first : (c : ℕ) → (c == 0) ≡ true → 0 ≡ c
    first c e = omega (arith, (==_iff c 0).0 e)

-- An id that is not empty is read back from the JSON that is written for it, zero ids included, whether
-- they are written as the empty text, as a span's is, or in full, as a trace's is.
pub unmarshal_hex_id-marshal_hex_id :
    (id : Bytes) (empty_when_zero : Bool)
    → IsByteString id
    → is_empty id ≡ false
    → unmarshal_hex_id (length id) (marshal_hex_id id empty_when_zero) ≡ some id
unfolding unmarshal_hex_id marshal_hex_id hex_text
unmarshal_hex_id-marshal_hex_id [] e h n = cc
unmarshal_hex_id-marshal_hex_id (b ∷ bs) e h n = go (e && is_zero_bytes (b ∷ bs)) refl
  where
    whole : of_size (length (b ∷ bs)) (hex_bytes (hex_text (b ∷ bs))) ≡ some (b ∷ bs)
    whole =
        ap (of_size (length (b ∷ bs))) (hex_bytes-hex_text (b ∷ bs) h)
        ∙ ap (λ t. if t then some (b ∷ bs) else none)
            ((==_iff (length (b ∷ bs)) (length (b ∷ bs))).1 refl)

    go :
        (z : Bool)
        → (e && is_zero_bytes (b ∷ bs)) ≡ z
        → (if is_empty (if z then [] else hex_text (b ∷ bs))
            then some (replicate (length (b ∷ bs)) 0)
            else parse_id (length (b ∷ bs)) (if z then [] else hex_text (b ∷ bs)))
          ≡ some (b ∷ bs)
    go true q = ap some (zeros (b ∷ bs) (ground (arith, q)))
    go false q = whole

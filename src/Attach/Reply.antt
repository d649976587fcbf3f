-- ===== src/Attach/Reply.antt =====
-- internal/attach/protocol.go: Response, OK and decodeResponse, on the bytes that the connection
-- gives. An error of the connection is left out, and so are the texts of the errors.
use apm2go.Base.{
  ℕ, ◌+◌, ◌≤◌, List, [], ◌∷◌, Bool, true, false, not, ◌||◌, if◌then◌else◌, ◌==◌, ltb, length,
  length-take, take, drop, is_empty, Option, none, some, ◌≡◌, refl, ap, sym, ◌∙◌, arith,
}
use apm2go.Base.Eq.{Bytes, codes}
use apm2go.Base.Int.{ℤ, pos, negsuc}
use apm2go.Base.Text.{has_prefix, split, cut, trim_space}
use apm2go.Base.Parse.{atoi}

pub record Response : Type 0 where
  pub code : ℤ
  pub body : Bytes
  pub agent_code : ℤ
  pub has_agent_code : Bool
  pub truncated : Bool

abbrev pub is_zero : ℤ → Bool
is_zero (pos n) = n == 0
is_zero (negsuc n) = false

unfoldable pub ok : Response → Bool
ok r = if not (is_zero r.code) then false else not r.has_agent_code || is_zero r.agent_code

abbrev pub max_response_bytes : ℕ
max_response_bytes = 1048576

abbrev pub agent_return_code_prefix : Bytes
agent_return_code_prefix = codes "return code: "

-- The agent's code in a line, if it has one.
unfoldable pub agent_code_in : Bytes → Option ℤ
agent_code_in l =
    let line = trim_space l in
    if has_prefix line agent_return_code_prefix then atoi (trim_space (drop 13 line)) else none

abbrev pub note_agent_code : Option ℤ → Response → Response
note_agent_code none r = r
note_agent_code (some n) r = record r { agent_code = n; has_agent_code = true }

-- The loop over the lines of the body.
unfoldable pub scan_lines : List Bytes → Response → Response
scan_lines [] r = r
scan_lines (l ∷ ls) r = scan_lines ls (note_agent_code (agent_code_in l) r)

pub data Decoded : Type 0 where
  decoded : Response → Decoded
  empty_response malformed_response : Decoded

abbrev pub bound_of : ℕ → ℕ
bound_of limit = if limit == 0 then max_response_bytes else limit

abbrev pub from_code : Bytes → Bool → Option ℤ → Decoded
from_code rest truncated none = malformed_response
from_code rest truncated (some code) = decoded (
    scan_lines (split 10 rest) (record {
      code = code;
      body = rest;
      agent_code = pos 0;
      has_agent_code = false;
      truncated = truncated;
    }))

-- A limit of 0 stands for every limit that is not positive.
unfoldable pub decode_response : Bytes → ℕ → Decoded
decode_response input limit =
    let read = take (bound_of limit + 1) input in
    let text = take (bound_of limit) read in
    let (first_line, rest, _) = cut 10 text in
    if is_empty read
    then empty_response
    else from_code rest (ltb (bound_of limit) (length read)) (atoi (trim_space first_line))

length-cut : (c : ℕ) (s : Bytes) → length (cut c s).1 ≤ length s
unfolding cut
length-cut c [] = omega arith
length-cut c (a ∷ s) = ground (arith, length-cut c s)

scan_lines-keeps :
    (ls : List Bytes) (r : Response)
    → ((scan_lines ls r).body ≡ r.body)
      × ((scan_lines ls r).truncated ≡ r.truncated)
      × ((scan_lines ls r).code ≡ r.code)
unfolding scan_lines
scan_lines-keeps [] r = (refl, refl, refl)
scan_lines-keeps (l ∷ ls) r =
    let (b, t, c) = scan_lines-keeps ls (note_agent_code (agent_code_in l) r) in
    let (b', t', c') = noted (agent_code_in l) in (b ∙ b', t ∙ t', c ∙ c')
  where
    noted :
        (o : Option ℤ)
        → ((note_agent_code o r).body ≡ r.body)
          × ((note_agent_code o r).truncated ≡ r.truncated)
          × ((note_agent_code o r).code ≡ r.code)
    noted none = (refl, refl, refl)
    noted (some n) = (refl, refl, refl)

decoded_injective : (a b : Response) → decoded a ≡ decoded b → a ≡ b
decoded_injective a b h = cc

from_code_lem :
    (e : Bool) (o : Option ℤ) (rest : Bytes) (t : Bool) (r : Response)
    → (if e then empty_response else from_code rest t o) ≡ decoded r
    → (r.body ≡ rest) × (r.truncated ≡ t)
from_code_lem true o rest t r h = cc
from_code_lem false none rest t r h = cc
from_code_lem false (some code) rest t r h =
    let e = decoded_injective _ r h in
    let start : Response = record {
      code = code;
      body = rest;
      agent_code = pos 0;
      has_agent_code = false;
      truncated = t;
    } in
    let (b, t', _) = scan_lines-keeps (split 10 rest) start in
    (sym (ap (λ (q : Response). q.body) e) ∙ b, sym (ap (λ (q : Response). q.truncated) e) ∙ t')

seen_past : (b : ℕ) (input : Bytes) → ltb b (length (take (b + 1) input)) ≡ ltb b (length input)
seen_past b input = ground (arith, length-take (b + 1) input)

-- A decoded reply's body is within the bound, and the reply is marked as truncated exactly if there
-- was more of it than the bound.
pub decode_response-bounds :
    (input : Bytes) (limit : ℕ) (r : Response)
    → decode_response input limit ≡ decoded r
    → (length r.body ≤ bound_of limit) × (r.truncated ≡ ltb (bound_of limit) (length input))
unfolding decode_response
decode_response-bounds input limit r h =
    let b = bound_of limit in
    let read = take (b + 1) input in
    let text = take b read in
    let (body, t) =
      from_code_lem (is_empty read) (atoi (trim_space (cut 10 text).0)) (cut 10 text).1
        (ltb b (length read)) r h in
    (within (ap length body), t ∙ seen_past b input)
  where
    within :
        length r.body ≡ length (cut 10 (take (bound_of limit) (take (bound_of limit + 1) input))).1
        → length r.body ≤ bound_of limit
    within e =
        let text = take (bound_of limit) (take (bound_of limit + 1) input) in
        omega (
          arith,
          e,
          length-cut 10 text,
          length-take (bound_of limit) (take (bound_of limit + 1) input),
        )

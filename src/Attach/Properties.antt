-- ===== src/Attach/Properties.antt =====
-- internal/attach/properties.go: parseProperties and unescapeProperty.
use apm2go.Base.{
  ℕ, List, [], ◌∷◌, Bool, false, ◌||◌, if◌then◌else◌, ◌==◌, is_empty, ◌≡◌, refl, arith,
}
use apm2go.Base.Eq.{Bytes, codes, text_eq}
use apm2go.Base.Text.{split, trim_space, has_prefix, cut}
use apm2go.Base.Dict.{Dict, insert}

-- What a backslash and a byte stand for.
abbrev pub escaped : ℕ → ℕ
escaped c =
    if c == b'n'
    then 10
    else if c == b'r'
    then 13
    else if c == b't'
    then 9
    else if c == b'f'
    then 12
    else c

unfoldable pub unescape_property : Bytes → Bytes
unescape_property [] = []
unescape_property (c ∷ []) = c ∷ []
unescape_property (c ∷ d ∷ s) =
    let behind_pair = unescape_property s in
    let behind_one = unescape_property (d ∷ s) in
    if c == 92 then escaped d ∷ behind_pair else c ∷ behind_one

abbrev pub put_property : Bytes × Bytes × Bool → Dict Bytes Bytes → Dict Bytes Bytes
put_property (key, value, found) out =
    if found then insert (trim_space key) (unescape_property value) out else out

abbrev pub is_comment : Bytes → Bool
is_comment line = is_empty line || has_prefix line (codes "#") || has_prefix line (codes "!")

-- The loop over the lines.
unfoldable pub parse_lines : List Bytes → Dict Bytes Bytes → Dict Bytes Bytes
parse_lines [] out = out
parse_lines (l ∷ ls) out =
    let line = trim_space l in
    parse_lines ls (if is_comment line then out else put_property (cut b'=' line) out)

unfoldable pub parse_properties : Bytes → Dict Bytes Bytes
parse_properties body = parse_lines (split 10 body) []

-- What java.util.Properties writes for a value's byte, before what it writes for the rest.
abbrev pub escape_byte : ℕ → Bytes → Bytes
escape_byte c s =
    if c == 10
    then 92 ∷ b'n' ∷ s
    else if c == 13
    then 92 ∷ b'r' ∷ s
    else if c == 9
    then 92 ∷ b't' ∷ s
    else if c == 12
    then 92 ∷ b'f' ∷ s
    else if c == 92 || c == b'=' || c == b':' || c == b'#' || c == b'!'
    then 92 ∷ c ∷ s
    else c ∷ s

abbrev pub java_escaped : Bytes → Bytes
java_escaped [] = []
java_escaped (c ∷ s) = escape_byte c (java_escaped s)

pub unescape_one :
    (c : ℕ) (s : Bytes) → (c == 92) ≡ false → unescape_property (c ∷ s) ≡ c ∷ unescape_property s
unfolding unescape_property
unescape_one c [] h = refl
unescape_one c (d ∷ s) h = rw h refl

pub unescape_pair :
    (d : ℕ) (s : Bytes) → unescape_property (92 ∷ d ∷ s) ≡ escaped d ∷ unescape_property s
unfolding unescape_property
unescape_pair d s = refl

-- Resolving the escapes that java.util.Properties writes in a value gives the value back.
pub unescape_property-java_escaped : (s : Bytes) → unescape_property (java_escaped s) ≡ s
unescape_property-java_escaped [] = unfold unescape_property in refl
unescape_property-java_escaped (c ∷ s) =
    let rest = java_escaped s in
    ground (
      arith,
      unescape_property-java_escaped s,
      unescape_one c rest,
      unescape_pair c rest,
      unescape_pair b'n' rest,
      unescape_pair b'r' rest,
      unescape_pair b't' rest,
      unescape_pair b'f' rest,
    )

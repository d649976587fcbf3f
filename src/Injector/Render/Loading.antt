-- ===== src/Injector/Render/Loading.antt =====
-- What java.util.Properties makes of a text, by the documentation of its `load`: the reader of what
-- internal/injector/injector.go writes. It is not code of the repository.
use apm2go.Base.{ℕ, List, [], ◌∷◌, ◌++◌, Bool, true, ◌||◌, if◌then◌else◌, ◌==◌}
use apm2go.Base.Eq.{Bytes, text_eq}
use apm2go.Base.Text.{split}
use apm2go.Attach.Properties.{unescape_property}

-- The white space of the format: a blank, a tab and a form feed.
abbrev pub is_blank : ℕ → Bool
is_blank c = c == 32 || c == 9 || c == 12

abbrev pub skip_blanks : Bytes → Bytes
skip_blanks [] = []
skip_blanks (c ∷ s) = let rest = skip_blanks s in if is_blank c then rest else c ∷ s

abbrev pub ends_key : ℕ → Bool
ends_key c = c == b'=' || c == b':' || is_blank c

-- The key, up to the first '=', ':' or white space without a backslash before it, and what follows.
abbrev pub cut_key : Bytes → Bytes × Bytes
cut_key [] = ([], [])
cut_key (c ∷ []) = if ends_key c then ([], c ∷ []) else (c ∷ [], [])
cut_key (c ∷ d ∷ s) =
    let behind_pair = cut_key s in
    let behind_one = cut_key (d ∷ s) in
    if c == 92
    then (c ∷ d ∷ behind_pair.0, behind_pair.1)
    else if ends_key c
    then ([], c ∷ d ∷ s)
    else (c ∷ behind_one.0, behind_one.1)

-- The value, behind white space, at most one '=' or ':', and more white space.
abbrev pub skip_sign : Bytes → Bytes
skip_sign [] = []
skip_sign (c ∷ s) = if c == b'=' || c == b':' then s else c ∷ s

abbrev pub value_behind : Bytes → Bytes
value_behind s = skip_blanks (skip_sign (skip_blanks s))

abbrev pub read_line : Bytes → Bytes × Bytes
read_line line =
    let parts = cut_key (skip_blanks line) in
    (unescape_property parts.0, unescape_property (value_behind parts.1))

-- A line of white space alone, or whose first other character is '#' or '!'.
abbrev pub says_nothing : Bytes → Bool
says_nothing [] = true
says_nothing (c ∷ s) = c == b'#' || c == b'!'

abbrev pub read_lines : List Bytes → List (Bytes × Bytes)
read_lines [] = []
read_lines (line ∷ lines) =
    let rest = read_lines lines in
    if says_nothing (skip_blanks line) then rest else read_line line ∷ rest

-- A line ends at a line feed or at a carriage return.
abbrev pub natural_lines : List Bytes → List Bytes
natural_lines [] = []
natural_lines (line ∷ lines) = split 13 line ++ natural_lines lines

abbrev pub load_properties : Bytes → List (Bytes × Bytes)
load_properties text = read_lines (natural_lines (split 10 text))

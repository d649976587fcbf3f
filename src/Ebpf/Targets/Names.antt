-- ===== src/Ebpf/Targets/Names.antt =====
-- internal/ebpf/discover.go: readCmdline, scriptName and phpFPMPoolName.
use apm2go.Base.{
  List, [], ◌∷◌, Bool, not, ◌||◌, if◌then◌else◌, ◌==◌, drop, is_empty, filter, Option, none, some,
}
use apm2go.Base.Eq.{Bytes, codes, bytes_eq, text_eq}
use apm2go.Base.Text.{has_prefix, cut_prefix, split, join, cut, trim_space, trim_right}
use apm2go.Discovery.Naming.{base_name, trim_suffix, after_last}

-- readCmdline
unfoldable pub argv_of : Option Bytes → List Bytes
argv_of none = []
argv_of (some raw) = filter (λ p. not (is_empty p)) (split 0 (trim_right (λ c. c == 0) raw))

-- filepath.Ext: from the last dot.
unfoldable pub extension : Bytes → Bytes
extension base = elim (after_last b'.' base) [ none ↦ [] | some rest ↦ b'.' ∷ rest ]

abbrev pub is_script_extension : Bytes → Bool
is_script_extension ext =
    bytes_eq ext (codes ".js")
    || bytes_eq ext (codes ".mjs")
    || bytes_eq ext (codes ".cjs")
    || bytes_eq ext (codes ".py")

-- The loop over the arguments behind the first.
unfoldable pub script_among : List Bytes → Bytes → Bytes
script_among [] fallback = fallback
script_among (arg ∷ args) fallback =
    let later = script_among args fallback in
    let base = base_name arg in
    if has_prefix arg (codes "-")
    then later
    else if is_script_extension (extension base)
    then trim_suffix (extension base) base
    else later

unfoldable pub script_name : List Bytes → Bytes → Bytes
unfolding script_among
script_name cmdline fallback = script_among (drop 1 cmdline) fallback

-- What stands behind the first place of a text.
unfoldable pub behind : Bytes → Bytes → Option Bytes
behind marker [] = none
behind marker (c ∷ s) =
    let later = behind marker s in
    elim (cut_prefix (c ∷ s) marker) [ some rest ↦ some rest | none ↦ later ]

unfoldable pub php_fpm_pool_name : List Bytes → Bytes
php_fpm_pool_name cmdline = elim (behind (codes "pool ") (join (codes " ") cmdline)) [
  | none ↦ []
  | some rest ↦ trim_space (cut b' ' rest).0
]

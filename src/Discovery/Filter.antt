-- ===== src/Discovery/Filter.antt =====
-- internal/discovery/filter.go
use apm2go.Base.{
  List, [], ◌∷◌, Bool, true, false, not, ◌&&◌, if◌then◌else◌, is_empty, Option, none, some,
}
use apm2go.Base.Eq.{Bytes, codes}
use apm2go.Base.Text.{to_lower, has_substring, join}
use apm2go.Inventory.Types.{Jvm}

pub record Filter : Type 0 where
  pub include : List Bytes
  pub exclude : List Bytes

unfoldable pub matches_any : Bytes → List Bytes → Bool
matches_any haystack [] = false
matches_any haystack (p ∷ ps) =
    let rest = matches_any haystack ps in
    if is_empty p then rest else if has_substring haystack (to_lower p) then true else rest

-- `CommandLine`
unfoldable pub command_line : Jvm → Bytes
command_line j = join (codes " ") j.cmdline

unfoldable pub haystack_of : Jvm → Bytes
unfolding command_line
haystack_of j =
    to_lower
      (join (codes " ") (j.service_name ∷ command_line j ∷ j.systemd_unit ∷ j.container_id ∷ []))

-- `none` is the nil filter, which accepts everything.
unfoldable pub accept : Option Filter → Jvm → Bool
accept none j = true
accept (some f) j =
    if not (is_empty f.include) && not (matches_any (haystack_of j) f.include)
    then false
    else not (matches_any (haystack_of j) f.exclude)

-- ===== src/Discovery/Launch/Flags.antt =====
-- About parseSystemProps and parseAgentFlags (internal/discovery/scanner.go): which flag counts.
use apm2go.Base.{
  List, [], ◌∷◌, Bool, true, not, ◌||◌, ◌&&◌, if◌then◌else◌, any, is_empty, Option, none, some, ◌≡◌,
  refl, ap, ◌∙◌, arith, Bool-cases, inl, inr,
}
use apm2go.Base.Eq.{Bytes, codes, bytes_eq, bytes_eq_iff, text_eq}
use apm2go.Base.Dict.{Dict, lookup, lookup-insert}
use apm2go.Base.Text.{cut_prefix, cut, has_substring}
use apm2go.Discovery.Launch.{
  put_flag, put_rest, put_system_prop, parse_system_props, is_agent_flag, parse_agent_flags,
}

-- The value that an argument gives a key, if it is a -D flag of it.
abbrev pub given_by_parts : Bytes → Bytes × Bytes × Bool → Option Bytes
given_by_parts k (key, value, found) =
    if bytes_eq key k && not (is_empty key) then some (if found then value else []) else none

abbrev pub given_by_rest : Bytes → Option Bytes → Option Bytes
given_by_rest k none = none
given_by_rest k (some rest) = given_by_parts k (cut b'=' rest)

abbrev pub given_by : Bytes → Bytes → Option Bytes
given_by k arg = given_by_rest k (cut_prefix arg (codes "-D"))

abbrev pub or_else : Option Bytes → Option Bytes → Option Bytes
or_else none b = b
or_else (some a) b = some a

-- The value that the last -D flag of a key gives.
abbrev pub last_given : Bytes → List Bytes → Option Bytes
last_given k [] = none
last_given k (arg ∷ args) = or_else (last_given k args) (given_by k arg)

or_else_assoc : (a b c : Option Bytes) → or_else a (or_else b c) ≡ or_else (or_else a b) c
or_else_assoc none b c = refl
or_else_assoc (some a) b c = refl

lookup-put_flag :
    (k : Bytes) (parts : Bytes × Bytes × Bool) (props : Dict Bytes Bytes)
    → lookup k (put_flag parts props) ≡ or_else (given_by_parts k parts) (lookup k props)
lookup-put_flag k (key, value, found) props =
    ground (arith, lookup-insert key k (if found then value else []) props, bytes_eq_iff key k)

lookup-put_rest :
    (k : Bytes) (rest : Option Bytes) (props : Dict Bytes Bytes)
    → lookup k (put_rest rest props) ≡ or_else (given_by_rest k rest) (lookup k props)
lookup-put_rest k none props = refl
lookup-put_rest k (some rest) props = lookup-put_flag k (cut b'=' rest) props

lookup-put_system_prop :
    (k arg : Bytes) (props : Dict Bytes Bytes)
    → lookup k (put_system_prop arg props) ≡ or_else (given_by k arg) (lookup k props)
unfolding put_system_prop
lookup-put_system_prop k arg props = lookup-put_rest k (cut_prefix arg (codes "-D")) props

-- After a command line a property has the value that the last -D flag of its name gives, and without
-- such a flag the value that it had.
pub parse_system_props-last :
    (k : Bytes) (args : List Bytes) (props : Dict Bytes Bytes)
    → lookup k (parse_system_props args props) ≡ or_else (last_given k args) (lookup k props)
unfolding parse_system_props
parse_system_props-last k [] props = refl
parse_system_props-last k (arg ∷ args) props =
    parse_system_props-last k args (put_system_prop arg props)
    ∙ ap (or_else (last_given k args)) (lookup-put_system_prop k arg props)
    ∙ or_else_assoc (last_given k args) (given_by k arg) (lookup k props)

abbrev pub is_our_flag : Bytes → Bool
is_our_flag arg = is_agent_flag arg && has_substring arg (codes "apm2go")

-- The marks say whether some argument loads an agent, and whether some argument loads ours.
pub parse_agent_flags-any :
    (args : List Bytes) (marks : Bool × Bool)
    → parse_agent_flags args marks
      ≡ (marks.0 || any is_agent_flag args, marks.1 || any is_our_flag args)
unfolding parse_agent_flags
parse_agent_flags-any [] (a, b) = ground arith
parse_agent_flags-any (arg ∷ args) (a, b) = elim (Bool-cases (is_agent_flag arg)) [
  | inl agent ↦
      rw agent
        (ground (arith, parse_agent_flags-any args (true, b || has_substring arg (codes "apm2go"))))
  | inr other ↦ rw other (ground (arith, parse_agent_flags-any args (a, b)))
]

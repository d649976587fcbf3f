-- ===== src/Discovery/Launch/Entries.antt =====
-- About parseEntryPoint (internal/discovery/scanner.go): the main class, the jar and the flags.
use apm2go.Base.{
  List, [], ◌∷◌, ◌++◌, Bool, true, false, ◌||◌, if◌then◌else◌, is_empty, All, All-append, ◌≡◌, refl,
  ap, sym, ◌∙◌, subst, append-nil, append_assoc, arith, Bool-cases, inl, inr,
}
use apm2go.Base.Eq.{Bytes, codes, bytes_eq, bytes_eq_refl}
use apm2go.Base.Text.{has_prefix}
use apm2go.Discovery.Launch.{EntryPoint, first_of, takes_value, entry_loop, parse_entry_point}

abbrev pub no_entry : EntryPoint
no_entry = record { entry_class = []; entry_jar = []; flags = [] }

-- What the loop does with an argument that it does not pass over.
jar_step :
    (arg : Bytes) (args : List Bytes) (e : EntryPoint)
    → bytes_eq arg (codes "-jar") ≡ true
    → entry_loop false (arg ∷ args) e
      ≡ (if is_empty args then e else record e { entry_jar = first_of args })
unfolding entry_loop
jar_step arg args e h = rw h refl

skip_step :
    (arg : Bytes) (args : List Bytes) (e : EntryPoint)
    → bytes_eq arg (codes "-jar") ≡ false
    → takes_value arg ≡ true
    → entry_loop false (arg ∷ args) e ≡ entry_loop true args e
unfolding entry_loop
skip_step arg args e h v = rw h rw v refl

flag_step :
    (arg : Bytes) (args : List Bytes) (e : EntryPoint)
    → bytes_eq arg (codes "-jar") ≡ false
    → takes_value arg ≡ false
    → has_prefix arg (codes "-") ≡ true
    → entry_loop false (arg ∷ args) e
      ≡ entry_loop false args (record e { flags = e.flags ++ arg ∷ [] })
unfolding entry_loop
flag_step arg args e h v d = rw h rw v rw d refl

class_step :
    (arg : Bytes) (args : List Bytes) (e : EntryPoint)
    → bytes_eq arg (codes "-jar") ≡ false
    → takes_value arg ≡ false
    → has_prefix arg (codes "-") ≡ false
    → entry_loop false (arg ∷ args) e ≡ record e { entry_class = arg }
unfolding entry_loop
class_step arg args e h v d = rw h rw v rw d refl

end_step : (skip : Bool) (e : EntryPoint) → entry_loop skip [] e ≡ e
unfolding entry_loop
end_step true e = refl
end_step false e = refl

skipped_step :
    (arg : Bytes) (args : List Bytes) (e : EntryPoint)
    → entry_loop true (arg ∷ args) e ≡ entry_loop false args e
unfolding entry_loop
skipped_step arg args e = refl

-- A flag that stands alone, or one with its value in the next argument.
pub data JvmOption : Type 0 where
  plain : Bytes → JvmOption
  valued : Bytes → Bytes → JvmOption

abbrev pub IsOption : JvmOption → Type 0
IsOption (plain f) =
    (has_prefix f (codes "-") ≡ true)
    × (takes_value f ≡ false)
    × (bytes_eq f (codes "-jar") ≡ false)
IsOption (valued f v) = (takes_value f ≡ true) × (bytes_eq f (codes "-jar") ≡ false)

abbrev pub written : List JvmOption → List Bytes → List Bytes
written [] rest = rest
written (plain f ∷ os) rest = f ∷ written os rest
written (valued f v ∷ os) rest = f ∷ v ∷ written os rest

abbrev pub plain_flags : List JvmOption → List Bytes
plain_flags [] = []
plain_flags (plain f ∷ os) = f ∷ plain_flags os
plain_flags (valued f v ∷ os) = plain_flags os

options_step :
    (os : List JvmOption) (rest : List Bytes) (e : EntryPoint)
    → All IsOption os
    → entry_loop false (written os rest) e
      ≡ entry_loop false rest (record e { flags = e.flags ++ plain_flags os })
options_step [] rest e h =
    ap (λ fs. entry_loop false rest (record e { flags = fs })) (sym (append-nil e.flags))
options_step (plain f ∷ os) rest e h =
    flag_step f (written os rest) e h.0.2 h.0.1 h.0.0
    ∙ options_step os rest (record e { flags = e.flags ++ f ∷ [] }) h.1
    ∙ ap (λ fs. entry_loop false rest (record e { flags = fs }))
        (append_assoc e.flags (f ∷ []) (plain_flags os))
options_step (valued f v ∷ os) rest e h =
    skip_step f (v ∷ written os rest) e h.0.1 h.0.0
    ∙ skipped_step v (written os rest) e
    ∙ options_step os rest e h.1

-- A command line that gives options, then -jar and a path, then anything: the entry point is that
-- path and no class, and the flags are the options that stand alone, in order. The condition is on the
-- options: each is a word that begins with a dash, is not -jar and is none of the four flags that the
-- code knows to take a value, or is one of those four with its value behind it.
pub parse_entry_point-jar :
    (java jar : Bytes) (os : List JvmOption) (rest : List Bytes)
    → All IsOption os
    → parse_entry_point (java ∷ written os (codes "-jar" ∷ jar ∷ rest)) no_entry
      ≡ record { entry_class = []; entry_jar = jar; flags = plain_flags os }
unfolding parse_entry_point
parse_entry_point-jar java jar os rest h =
    options_step os (codes "-jar" ∷ jar ∷ rest) no_entry h
    ∙ jar_step (codes "-jar") (jar ∷ rest) (record no_entry { flags = plain_flags os }) same
  where
    same : bytes_eq (codes "-jar") (codes "-jar") ≡ true
    same = bytes_eq_refl (codes "-jar")

-- A command line that gives options, then a word that does not begin with a dash, then anything: the
-- entry point is that word and no jar, and the flags are the options that stand alone, in order.
pub parse_entry_point-class :
    (java name : Bytes) (os : List JvmOption) (rest : List Bytes)
    → All IsOption os
    → takes_value name ≡ false
    → bytes_eq name (codes "-jar") ≡ false
    → has_prefix name (codes "-") ≡ false
    → parse_entry_point (java ∷ written os (name ∷ rest)) no_entry
      ≡ record { entry_class = name; entry_jar = []; flags = plain_flags os }
unfolding parse_entry_point
parse_entry_point-class java name os rest h v j d =
    options_step os (name ∷ rest) no_entry h
    ∙ class_step name rest (record no_entry { flags = plain_flags os }) j v d

-- Any flag that is not one of the four that the code knows to take a value, written with its value as
-- the next argument: the value is taken for the main class, and a jar named behind it is not seen.
pub parse_entry_point-flag_value :
    (java flag value : Bytes) (rest : List Bytes)
    → IsOption (plain flag)
    → takes_value value ≡ false
    → bytes_eq value (codes "-jar") ≡ false
    → has_prefix value (codes "-") ≡ false
    → parse_entry_point (java ∷ flag ∷ value ∷ rest) no_entry
      ≡ record { entry_class = value; entry_jar = []; flags = flag ∷ [] }
parse_entry_point-flag_value java flag value rest h v j d =
    parse_entry_point-class java value (plain flag ∷ []) rest (h, tt) v j d

-- One entry point at most, and flags that begin with a dash.
abbrev pub IsSound : EntryPoint → Type 0
IsSound e =
    ((is_empty e.entry_class || is_empty e.entry_jar) ≡ true)
    × All (λ f. has_prefix f (codes "-") ≡ true) e.flags

abbrev IsOpen : EntryPoint → Type 0
IsOpen e =
    (e.entry_class ≡ []) × (e.entry_jar ≡ []) × All (λ f. has_prefix f (codes "-") ≡ true) e.flags

IsSound-open : (e : EntryPoint) → IsOpen e → IsSound e
IsSound-open e (c, j, f) = (ap (λ s. is_empty s || is_empty e.entry_jar) c, f)

entry_loop-IsSound :
    (skip : Bool) (args : List Bytes) (e : EntryPoint) → IsOpen e → IsSound (entry_loop skip args e)
entry_loop-IsSound skip [] e h = subst IsSound (sym (end_step skip e)) (IsSound-open e h)
entry_loop-IsSound true (arg ∷ args) e h =
    subst IsSound (sym (skipped_step arg args e)) (entry_loop-IsSound false args e h)
entry_loop-IsSound false (arg ∷ args) e h = elim (Bool-cases (bytes_eq arg (codes "-jar"))) [
  | inl jar ↦ subst IsSound (sym (jar_step arg args e jar)) (jar_sound args)
  | inr other ↦ elim (Bool-cases (takes_value arg)) [
    | inl skipped ↦
        subst IsSound (sym (skip_step arg args e other skipped)) (entry_loop-IsSound true args e h)
    | inr taken ↦ elim (Bool-cases (has_prefix arg (codes "-"))) [
      | inl dash ↦ subst IsSound (sym (flag_step arg args e other taken dash)) (
          entry_loop-IsSound false args (record e { flags = e.flags ++ arg ∷ [] })
            (h.0, h.1, All-append _ e.flags (arg ∷ []) h.2 (dash, tt)))
      | inr word ↦
          subst IsSound (sym (class_step arg args e other taken word))
            (ground (arith, ap is_empty h.1), h.2)
    ]
  ]
]
  where
    jar_sound :
        (args : List Bytes)
        → IsSound (if is_empty args then e else record e { entry_jar = first_of args })
    jar_sound [] = IsSound-open e h
    jar_sound (a ∷ args) = (ap (λ s. is_empty s || is_empty a) h.0, h.2)

-- Whatever the command line is, at most one of the main class and the jar is found, and what is kept
-- as a flag begins with a dash.
pub parse_entry_point-IsSound :
    (cmdline : List Bytes) → IsSound (parse_entry_point cmdline no_entry)
unfolding parse_entry_point
parse_entry_point-IsSound [] = (refl, tt)
parse_entry_point-IsSound (arg ∷ args) = entry_loop-IsSound false args no_entry (refl, refl, tt)

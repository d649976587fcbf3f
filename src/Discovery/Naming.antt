-- ===== src/Discovery/Naming.antt =====
-- internal/discovery/naming.go and the names of internal/container/info.go. Letters and digits are
-- those of ASCII in the source too, so walking bytes answers as walking runes does.
pub mod Choice
pub mod Decimal
use apm2go.Base.{
  ℕ, ◌+◌, ◌/◌, ◌%◌, zero, suc, List, [], ◌∷◌, ◌++◌, Bool, true, false, not, ◌&&◌, ◌||◌,
  if◌then◌else◌, ltb, leb, ◌==◌, length, is_empty, Option, none, some,
}
use apm2go.Base.Eq.{Bytes, codes, bytes_eq, text_eq}
use apm2go.Base.Dict.{Dict, lookup}
use apm2go.Base.Text.{join, split, has_prefix, trim_right}

pub record ContainerInfo : Type 0 where
  pub name : Bytes
  pub compose_service : Bytes
  pub pod_name : Bytes
  pub app_label : Bytes

-- The fields of discovery.JVM that the naming reads.
pub record Process : Type 0 where
  pub pid : ℕ
  pub system_props : Dict Bytes Bytes
  pub container : Option ContainerInfo
  pub jar_path : Bytes
  pub systemd_unit : Bytes
  pub main_class : Bytes

pub data Source : Type 0 where
  otel_property spring_property kubernetes compose container_name jar_file systemd main_class_name
        fallback :
      Source

abbrev pub is_digit : ℕ → Bool
is_digit c = leb 48 c && leb c 57

abbrev pub is_lower : ℕ → Bool
is_lower c = leb 97 c && leb c 122

-- The counts of digits and letters of a segment; `none` at the first other byte.
unfoldable pub tally : ℕ → ℕ → Bytes → Option (ℕ × ℕ)
tally digits letters [] = some (digits, letters)
tally digits letters (c ∷ s) =
    let with_digit = tally (digits + 1) letters s in
    let with_letter = tally digits (letters + 1) s in
    if is_digit c then with_digit else if is_lower c then with_letter else none

unfoldable pub is_generated_suffix : Bytes → Bool
unfolding tally
is_generated_suffix segment =
    if is_empty segment || ltb 10 (length segment) then false else elim (tally 0 0 segment) [
      | none ↦ false
      | some counts ↦ if counts.1 == 0 then true else ltb 0 counts.0
    ]

-- The loop that drops segments from the right, on the segments behind the first: the longest tail
-- whose segments all satisfy the test goes.
unfoldable pub drop_tail : (Bytes → Bool) → List Bytes → List Bytes
drop_tail p [] = []
drop_tail p (seg ∷ segs) =
    let rest = drop_tail p segs in if p seg && is_empty rest then [] else seg ∷ rest

unfoldable pub trim_segments : (Bytes → Bool) → List Bytes → List Bytes
unfolding drop_tail
trim_segments p [] = []
trim_segments p (first ∷ segs) = first ∷ drop_tail p segs

unfoldable pub trim_pod_suffixes : Bytes → Bytes
unfolding trim_segments is_generated_suffix
trim_pod_suffixes pod_name =
    join (codes "-") (trim_segments is_generated_suffix (split 45 pod_name))

unfoldable pub container_service_name : Option ContainerInfo → Bytes
unfolding trim_pod_suffixes
container_service_name none = []
container_service_name (some i) =
    if not (is_empty i.app_label)
    then i.app_label
    else if not (is_empty i.compose_service)
    then i.compose_service
    else if not (is_empty i.pod_name)
    then trim_pod_suffixes i.pod_name
    else i.name

unfoldable pub container_name_source : Option ContainerInfo → Source
container_name_source none = container_name
container_name_source (some i) =
    if not (is_empty i.app_label)
    then kubernetes
    else if not (is_empty i.compose_service)
    then compose
    else if not (is_empty i.pod_name)
    then kubernetes
    else container_name

-- strings.TrimSuffix
unfoldable pub trim_suffix : Bytes → Bytes → Bytes
trim_suffix suffix [] = []
trim_suffix suffix (c ∷ s) =
    let rest = trim_suffix suffix s in if bytes_eq (c ∷ s) suffix then [] else c ∷ rest

-- What follows the last byte of that value; `none` without one.
unfoldable pub after_last : ℕ → Bytes → Option Bytes
after_last b [] = none
after_last b (c ∷ s) = elim (after_last b s) [
  | some rest ↦ some rest
  | none ↦ if c == b then some s else none
]

-- filepath.Base
unfoldable pub base_name : Bytes → Bytes
unfolding after_last
base_name path =
    if is_empty path
    then codes "."
    else (let stripped = trim_right (λ c. c == 47) path in
        if is_empty stripped
        then codes "/"
        else elim (after_last 47 stripped) [ none ↦ stripped | some rest ↦ rest ])

unfoldable pub digits_and_dots : Bytes → Bool
digits_and_dots [] = true
digits_and_dots (c ∷ s) = (is_digit c || c == 46) && digits_and_dots s

abbrev pub trim_v : Bytes → Bytes
trim_v [] = []
trim_v (c ∷ s) = if c == 118 then s else c ∷ s

abbrev pub starts_with_digit : Bytes → Bool
starts_with_digit [] = false
starts_with_digit (c ∷ s) = is_digit c

unfoldable pub is_version_segment : Bytes → Bool
is_version_segment s = starts_with_digit (trim_v s) && digits_and_dots (trim_v s)

abbrev pub maven_suffixes : List Bytes
maven_suffixes =
    codes "-SNAPSHOT"
    ∷ codes "-RELEASE"
    ∷ codes "-exec"
    ∷ codes "-boot"
    ∷ codes "-all"
    ∷ codes "-fat"
    ∷ codes "-shaded"
    ∷ []

unfoldable pub trim_all : List Bytes → Bytes → Bytes
trim_all [] base = base
trim_all (suffix ∷ suffixes) base = trim_all suffixes (trim_suffix suffix base)

unfoldable pub jar_service_name : Bytes → Bytes
unfolding trim_all trim_segments base_name
jar_service_name jar_path =
    let base = trim_suffix (codes ".war") (trim_suffix (codes ".jar") (base_name jar_path)) in
    if is_empty base
    then []
    else join (codes "-")
        (trim_segments is_version_segment (split 45 (trim_all maven_suffixes base)))

unfoldable pub main_class_service_name : Bytes → Bytes
main_class_service_name name = elim (after_last 46 name) [
  | none ↦ name
  | some rest ↦ if is_empty rest then name else rest
]

-- strconv.Itoa of a pid, on fuel above the number.
unfoldable pub decimal : ℕ → ℕ → Bytes
decimal zero n = []
decimal (suc fuel) n =
    let front = decimal fuel (n / 10) in
    if ltb n 10 then (48 + n) ∷ [] else front ++ (48 + n % 10) ∷ []

-- A missing key reads as the empty string.
abbrev pub property_of : Process → Bytes → Bytes
property_of p k = elim (lookup k p.system_props) [ none ↦ [] | some v ↦ v ]

unfoldable pub derive_service_name : Process → Bytes × Source
derive_service_name p =
    let from_container = container_service_name p.container in
    let from_jar = jar_service_name p.jar_path in
    if not (is_empty (property_of p (codes "otel.service.name")))
    then (property_of p (codes "otel.service.name"), otel_property)
    else if not (is_empty (property_of p (codes "spring.application.name")))
    then (property_of p (codes "spring.application.name"), spring_property)
    else if not (is_empty from_container)
    then (from_container, container_name_source p.container)
    else if not (is_empty p.jar_path) && not (is_empty from_jar)
    then (from_jar, jar_file)
    else if not (is_empty p.systemd_unit)
    then (p.systemd_unit, systemd)
    else if not (is_empty p.main_class)
    then (main_class_service_name p.main_class, main_class_name)
    else (codes "java-" ++ decimal (p.pid + 1) p.pid, fallback)

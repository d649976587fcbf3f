-- ===== src/Discovery/Host/Cgroup.antt =====
-- internal/discovery/scanner.go: readCgroup and its regular expressions; and PodUIDFromCgroup of
-- internal/container/cgroup.go.
use apm2go.Base.{
  ℕ, [], ◌∷◌, Bool, not, ◌&&◌, ◌||◌, if◌then◌else◌, ◌==◌, leb, is_empty, length, take, drop, all,
  map, Option, none, some,
}
use apm2go.Base.Eq.{Bytes, codes, bytes_eq}
use apm2go.Base.Text.{has_prefix}

abbrev pub is_hex : ℕ → Bool
is_hex c = (leb b'0' c && leb c b'9') || (leb b'a' c && leb c b'f')

-- The first place at which a pattern of a fixed length matches.
unfoldable pub find_fixed : (Bytes → Bool) → ℕ → Bytes → Bytes
find_fixed matches n [] = []
find_fixed matches n (c ∷ s) =
    let later = find_fixed matches n s in if matches (take n (c ∷ s)) then take n (c ∷ s) else later

-- [0-9a-f]{64}
abbrev pub is_container_id : Bytes → Bool
is_container_id s = length s == 64 && all is_hex s

unfoldable pub container_id_in : Bytes → Bytes
unfolding find_fixed
container_id_in text = find_fixed is_container_id 64 text

-- [\w\-.@\\]
abbrev pub is_unit_byte : ℕ → Bool
is_unit_byte c =
    (leb b'0' c && leb c b'9')
    || (leb b'a' c && leb c b'z')
    || (leb b'A' c && leb c b'Z')
    || c == b'_'
    || c == b'-'
    || c == b'.'
    || c == b'@'
    || c == 92

-- What the bytes of a unit's name run to, from the text's start.
unfoldable pub unit_run : Bytes → Bytes
unit_run [] = []
unit_run (c ∷ s) = let rest = unit_run s in if is_unit_byte c then c ∷ rest else []

-- What stands before the last ".service".
unfoldable pub before_service : Bytes → Option Bytes
before_service [] = none
before_service (c ∷ s) = elim (before_service s) [
  | some front ↦ some (c ∷ front)
  | none ↦ if has_prefix (c ∷ s) (codes ".service") then some [] else none
]

abbrev pub non_empty_unit : Option Bytes → Option Bytes
non_empty_unit (some (c ∷ s)) = some (c ∷ s)
non_empty_unit _ = none

abbrev pub unit_or : Option Bytes → Bytes → Bytes
unit_or none later = later
unit_or (some unit) later = unit

-- The unit of /([\w\-.@\\]+\.service), less the suffix.
unfoldable pub systemd_unit_of : Bytes → Bytes
systemd_unit_of [] = []
systemd_unit_of (c ∷ s) =
    let later = systemd_unit_of s in
    if c == b'/' then unit_or (non_empty_unit (before_service (unit_run s))) later else later

abbrev pub is_at : ℕ → ℕ → Bytes → Bool
is_at sep i s = bytes_eq (take 1 (drop i s)) (sep ∷ [])

-- The groups of a pod's uid at a separator.
abbrev pub is_pod_uid : ℕ → Bytes → Bool
is_pod_uid sep s =
    length s == 39
    && has_prefix s (codes "pod")
    && all is_hex (take 8 (drop 3 s))
    && is_at sep 11 s
    && all is_hex (take 4 (drop 12 s))
    && is_at sep 16 s
    && all is_hex (take 4 (drop 17 s))
    && is_at sep 21 s
    && all is_hex (take 4 (drop 22 s))
    && is_at sep 26 s
    && all is_hex (take 12 (drop 27 s))

-- strings.ReplaceAll of a byte
abbrev pub replace_byte : ℕ → ℕ → Bytes → Bytes
replace_byte old new = map (λ c. if c == old then new else c)

unfoldable pub pod_uid_from_cgroup : Bytes → Bytes
unfolding find_fixed
pod_uid_from_cgroup text =
    let plain = drop 3 (find_fixed (is_pod_uid b'-') 39 text) in
    if not (is_empty plain)
    then plain
    else replace_byte b'_' b'-' (drop 3 (find_fixed (is_pod_uid b'_') 39 text))

pub record Labels : Type 0 where
  pub container : Bytes
  pub unit : Bytes
  pub pod_uid : Bytes

unfoldable pub read_cgroup : Option Bytes → Labels
read_cgroup none = record { container = []; unit = []; pod_uid = [] }
read_cgroup (some text) = record {
  container = container_id_in text;
  unit = systemd_unit_of text;
  pod_uid = pod_uid_from_cgroup text;
}

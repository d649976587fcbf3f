-- ===== src/Discovery/Scan.antt =====
-- internal/discovery/scanner.go: Scanner, Scan, Inspect, isJVM, lookupUser, resolveGateway and
-- resolveContainer; and hsperfPath and readPerfData of internal/discovery/hsperf.go. What the kernel,
-- the user database and the container runtime answer are parameters; a panic is a result.
pub mod Inspect
pub mod Facts
pub mod Results
use apm2go.Base.{
  ℕ, ◌+◌, List, [], ◌∷◌, ◌++◌, Bool, true, false, not, ◌&&◌, ◌||◌, if◌then◌else◌, ◌==◌, ltb, map,
  is_empty, Option, none, some,
}
use apm2go.Base.Eq.{Eq, ◌=?◌, Bytes, codes, text_eq}
use apm2go.Base.Int.{ℤ, pos, negsuc, ℤ_eq}
use apm2go.Base.Dict.{Dict, lookup, insert, contains}
use apm2go.Base.Text.{join}
use apm2go.Base.Parse.{atoi}
use apm2go.Ingest.Values.{format_int}
use apm2go.Network.Route
use apm2go.Discovery.PerfData.{PerfData, Parsed, parsed, refused, panicked, parse_perf_data}
use apm2go.Discovery.Naming.{ContainerInfo, Process, Source, decimal, derive_service_name}
use apm2go.Discovery.Launch.{Launch, is_java_binary, read_cmdline, parse_launch, apply_perf_data}
use apm2go.Discovery.Host.{
  Ids, has_lib_jvm, read_status, start_time_of, read_boot_time, detect_namespace,
}
use apm2go.Discovery.Host.Cgroup.{Labels, read_cgroup}

abbrev pub perf_names : ℕ → ℤ → List Bytes
perf_names pid ns_pid =
    format_int ns_pid ∷ (if ns_pid =? pos pid then [] else format_int (pos pid) ∷ [])

-- The loops over the directories and the names, which keep the first of equal paths.
unfoldable pub add_paths : Bytes → List Bytes → List Bytes → List Bytes
add_paths dir [] out = out
add_paths dir (n ∷ ns) out =
    let path = dir ++ (codes "/" ++ n) in
    add_paths dir ns (if contains path out then out else out ++ path ∷ [])

unfoldable pub paths_from : List Bytes → List Bytes → List Bytes → List Bytes
paths_from names [] out = out
paths_from names (d ∷ ds) out = paths_from names ds (add_paths d names out)

-- From the target's root, and the directories that the glob finds.
unfoldable pub hsperf_path : Bytes → ℕ → ℤ → Bytes → List Bytes → List Bytes
hsperf_path root pid ns_pid user matches =
    paths_from (perf_names pid ns_pid)
      ((if is_empty user then [] else (root ++ (codes "/tmp/hsperfdata_" ++ user)) ∷ []) ++ matches)
      []

pub record PerfFile : Type 0 where
  pub size : Option ℕ
  pub content : Option Bytes

abbrev pub max_perf_file_size : ℕ
max_perf_file_size = 4194304

pub data PerfRead : Type 0 where
  perf_found : PerfData → PerfRead
  perf_missing : PerfRead
  perf_crashed : PerfRead

abbrev pub perf_outcome : Parsed → PerfRead → PerfRead
perf_outcome (parsed pd) later = perf_found pd
perf_outcome (refused e) later = later
perf_outcome panicked later = perf_crashed

abbrev pub perf_content : Option Bytes → PerfRead → PerfRead
perf_content none later = later
perf_content (some raw) later = perf_outcome (parse_perf_data raw) later

abbrev pub perf_file : PerfFile → PerfRead → PerfRead
perf_file f later = elim f.size [
  | none ↦ later
  | some n ↦ if ltb n 32 || ltb max_perf_file_size n then later else perf_content f.content later
]

unfoldable pub read_perf_data : (Bytes → PerfFile) → List Bytes → PerfRead
read_perf_data files [] = perf_missing
read_perf_data files (path ∷ paths) = perf_file (files path) (read_perf_data files paths)

-- What the files of one process answer.
pub record ProcDir : Type 0 where
  pub present : Bool
  pub cmdline_file : Option Bytes
  pub exe_link : Bytes
  pub maps_file : Option (List Bytes)
  pub status_file : Option (List Bytes)
  pub stat_file : Option Bytes
  pub modified : Option ℤ
  pub cgroup_file : Option Bytes
  pub mnt_link : Option Bytes
  pub net_link : Option Bytes
  pub route_file : Option (List Bytes)
  pub root_path : Bytes
  pub perf_dirs : List Bytes
  pub perf_files : Bytes → PerfFile

-- What the host answers to every process.
pub record Surroundings : Type 0 where
  pub stat_of_host : Option Bytes
  pub host_mnt : Bytes
  pub our_net : Bytes
  pub user_named : ℤ → Option Bytes
  pub container_of : Bytes → Option ContainerInfo

pub record Scanner : Type 0 where
  pub boot_time : Option ℤ
  pub user_cache : Dict ℤ Bytes

-- discovery.JVM, of which Launch and Labels are parts.
pub record Discovered : Type 0 where
  pub pid : ℕ
  pub ids : Ids
  pub user : Bytes
  pub service_name : Bytes
  pub name_source : Source
  pub cmdline : List Bytes
  pub exe_path : Bytes
  pub launch : Launch
  pub started : Option ℤ
  pub in_container : Bool
  pub shares_our_network : Bool
  pub gateway_text : Bytes
  pub labels : Labels
  pub container_info : Option ContainerInfo

unfoldable pub is_jvm : ProcDir → List Bytes → Bool
is_jvm d [] = false
is_jvm d (arg ∷ args) =
    if is_java_binary d.exe_link || is_java_binary arg then true else has_lib_jvm d.maps_file

abbrev pub name_or_empty : Option Bytes → Bytes
name_or_empty none = []
name_or_empty (some name) = name

abbrev pub cached_or : (ℤ → Option Bytes) → ℤ → Scanner → Option Bytes → Bytes × Scanner
cached_or users uid s (some name) = (name, s)
cached_or users uid s none =
    let name = name_or_empty (users uid) in
    (name, record s { user_cache = insert uid name s.user_cache })

unfoldable pub lookup_user : (ℤ → Option Bytes) → ℤ → Scanner → Bytes × Scanner
lookup_user users uid s = cached_or users uid s (lookup uid s.user_cache)

-- The boot time is read when it is not known yet.
abbrev pub known_boot : Option Bytes → Option ℤ → Option ℤ
known_boot stat none = read_boot_time stat
known_boot stat (some t) = some t

-- Addr.String of an IPv4 address.
abbrev pub dotted : List ℕ → Bytes
dotted octets = join (codes ".") (map (λ o. decimal (o + 1) o) octets)

abbrev pub dotted_or_empty : Option (List ℕ) → Bytes
dotted_or_empty none = []
dotted_or_empty (some octets) = dotted octets

abbrev pub gateway_in : Option (List Bytes) → Bytes
gateway_in none = []
gateway_in (some lines) = dotted_or_empty (Route.gateway lines)

unfoldable pub resolve_gateway : Bool → Option (List Bytes) → Bytes
resolve_gateway shares routes = if shares then [] else gateway_in routes

unfoldable pub resolve_container : (Bytes → Option ContainerInfo) → Bytes → Option ContainerInfo
resolve_container containers id = if is_empty id then none else containers id

abbrev pub overlay_perf : PerfRead → Launch → Option Launch
overlay_perf (perf_found pd) j = some (apply_perf_data pd j)
overlay_perf perf_missing j = some j
overlay_perf perf_crashed j = none

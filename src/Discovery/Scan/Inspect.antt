-- ===== src/Discovery/Scan/Inspect.antt =====
-- internal/discovery/scanner.go: Inspect and Scan. The loop reads one directory entry after the other;
-- a panic of the reader of the performance data ends it.
use apm2go.Base.{ℕ, List, [], ◌∷◌, Bool, not, ◌||◌, if◌then◌else◌, ◌==◌, Option, none, some}
use apm2go.Base.Eq.{◌=?◌, Bytes, text_eq}
use apm2go.Base.Int.{ℤ, pos, ℤ_eq}
use apm2go.Base.Parse.{atoi}
use apm2go.Discovery.Naming.{Process, derive_service_name, fallback}
use apm2go.Discovery.Launch.{Launch, read_cmdline, parse_launch}
use apm2go.Discovery.Host.{Ids, read_status, start_time_of, detect_namespace}
use apm2go.Discovery.Host.Cgroup.{read_cgroup}
use apm2go.Discovery.Scan.{
  ProcDir, Surroundings, Scanner, Discovered, PerfRead, hsperf_path, read_perf_data, is_jvm,
  lookup_user, known_boot, resolve_gateway, resolve_container, overlay_perf,
}

-- What deriveServiceName reads of the description.
abbrev pub process_of : Discovered → Process
process_of j = record {
  pid = j.pid;
  system_props = j.launch.system_props;
  container = j.container_info;
  jar_path = j.launch.jar_path;
  systemd_unit = j.labels.unit;
  main_class = j.launch.main_class;
}

abbrev pub named : Discovered → Discovered
named j =
    let (name, source) = derive_service_name (process_of j) in
    record j { service_name = name; name_source = source }

-- The pid stands for the one in the process's own namespace where the status gives none.
abbrev pub ids_of : ℕ → ProcDir → Ids
ids_of pid d = read_status d.status_file (record { uid = pos 0; gid = pos 0; ns_pid = pos pid })

-- The description before the performance data are read.
unfoldable pub describe : Surroundings → ℕ → ProcDir → Bytes → Option ℤ → Discovered
describe h pid d user boot =
    let cmdline = read_cmdline d.cmdline_file in
    let ids = ids_of pid d in
    let labels = read_cgroup d.cgroup_file in
    let (inside, shares) =
      detect_namespace (not (ids.ns_pid =? pos pid)) labels.container d.mnt_link h.host_mnt
        d.net_link h.our_net in
    record {
      pid = pid;
      ids = ids;
      user = user;
      service_name = [];
      name_source = fallback;
      cmdline = cmdline;
      exe_path = d.exe_link;
      launch = parse_launch d.exe_link cmdline;
      started = start_time_of boot d.stat_file d.modified;
      in_container = inside;
      shares_our_network = shares;
      gateway_text = resolve_gateway shares d.route_file;
      labels = labels;
      container_info = resolve_container h.container_of labels.container;
    }

pub data Inspected : Type 0 where
  gone : Inspected
  not_jvm : Inspected
  inspected : Discovered → Inspected
  crashed : Inspected

abbrev pub finished : Discovered → Option Launch → Inspected
finished j none = crashed
finished j (some launch) = inspected (named (record j { launch = launch }))

abbrev pub perf_of : ProcDir → Discovered → PerfRead
perf_of d j =
    read_perf_data d.perf_files (hsperf_path d.root_path j.pid j.ids.ns_pid j.user d.perf_dirs)

-- The user's name and the scanner that has cached it and the boot time.
unfoldable pub user_and_boot : Surroundings → ℕ → ProcDir → Scanner → Bytes × Scanner
user_and_boot h pid d s =
    let (user, s') = lookup_user h.user_named (ids_of pid d).uid s in
    (user, record s' { boot_time = known_boot h.stat_of_host s'.boot_time })

unfoldable pub inspect : Surroundings → ℕ → ProcDir → Scanner → Inspected × Scanner
inspect h pid d s =
    let (user, s') = user_and_boot h pid d s in
    let j = describe h pid d user s'.boot_time in
    if not d.present
    then (gone, s)
    else if not (is_jvm d (read_cmdline d.cmdline_file))
    then (not_jvm, s)
    else (finished j (overlay_perf (perf_of d j) j.launch), s')

-- An entry of the directory: whether it is a directory, and its name.
abbrev pub DirEntry : Type 0
DirEntry = Bool × Bytes

-- A pid, which in the kernel's directory is no negative number.
abbrev pub pid_of : Option ℤ → Option ℕ
pid_of (some (pos n)) = some n
pid_of _ = none

-- The pid that an entry is inspected for.
abbrev pub candidate : ℕ → DirEntry → Option ℕ
candidate self (is_dir, name) = elim (pid_of (atoi name)) [
  | none ↦ none
  | some pid ↦ if not is_dir || pid == self then none else some pid
]

-- The descriptions found so far, in order; `none` when the scan crashed.
abbrev pub ScanFound : Type 0
ScanFound = Option (List Discovered) × Scanner

abbrev pub prepend : Discovered → ScanFound → ScanFound
prepend j (none, s) = (none, s)
prepend j (some js, s) = (some (j ∷ js), s)

-- What the loop does behind an inspection; the rest is run from the scanner that is left.
abbrev pub behind_inspection : Inspected × Scanner → (Scanner → ScanFound) → ScanFound
behind_inspection (gone, s) rest = rest s
behind_inspection (not_jvm, s) rest = rest s
behind_inspection (inspected j, s) rest = prepend j (rest s)
behind_inspection (crashed, s) rest = (none, s)

module _ (h : Surroundings) (self : ℕ) (dirs : ℕ → ProcDir) where
  abbrev pub scan_candidate : Option ℕ → Scanner → (Scanner → ScanFound) → ScanFound
  scan_candidate none s rest = rest s
  scan_candidate (some pid) s rest = behind_inspection (inspect h pid (dirs pid) s) rest

  -- The loop over the entries.
  unfoldable pub scan_entries : List DirEntry → Scanner → ScanFound
  scan_entries [] s = (some [], s)
  scan_entries (e ∷ es) s = scan_candidate (candidate self e) s (scan_entries es)

  -- `none` is the error of a directory that cannot be read.
  unfoldable pub scan : Option (List DirEntry) → Scanner → Option ScanFound
  unfolding scan_entries
  scan none s = none
  scan (some entries) s = some (scan_entries entries s)

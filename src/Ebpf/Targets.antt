-- ===== src/Ebpf/Targets.antt =====
-- internal/ebpf/discover.go. What the kernel shows of a process is a record, in which `none` is a file
-- or a link that cannot be read; whether the executable has Go's build metadata is part of it.
pub mod Names
pub mod Sound
use apm2go.Base.{
  ℕ, zero, List, [], ◌∷◌, ◌++◌, Bool, true, false, not, ◌&&◌, ◌||◌, if◌then◌else◌, ◌==◌, ltb,
  length, drop, is_empty, filter, Option, none, some,
}
use apm2go.Base.Eq.{Bytes, codes, bytes_eq, text_eq}
use apm2go.Base.Int.{ℤ, pos, negsuc}
use apm2go.Base.Dict.{Dict, lookup, contains}
use apm2go.Base.Text.{
  has_prefix, cut_prefix, has_substring, split, join, cut, trim_space, trim_right,
}
use apm2go.Base.Parse.{atoi}
use apm2go.Network.Ports.{socket_inodes, listen_ports}
use apm2go.Discovery.Naming.{base_name, trim_suffix, after_last}
use apm2go.Ebpf.Targets.Names.{argv_of, script_name, php_fpm_pool_name}
use apm2go.Discovery.Host.Cgroup.{container_id_in}

abbrev pub Runtime : Type 0
Runtime = Bytes

abbrev pub runtime_node : Runtime
runtime_node = codes "nodejs"

abbrev pub runtime_php : Runtime
runtime_php = codes "php"

abbrev pub runtime_go : Runtime
runtime_go = codes "go"

pub record Target : Type 0 where
  pub pid : ℕ
  pub runtime : Runtime
  pub name : Bytes
  pub container : Bytes
  pub ports : List ℕ

-- `Port`
unfoldable pub first_port : List ℕ → ℕ
first_port [] = 0
first_port (p ∷ ps) = p

abbrev pub interpreter_prefix : List (Bytes × Runtime)
interpreter_prefix =
    (codes "node", runtime_node)
    ∷ (codes "python", codes "python")
    ∷ (codes "php-fpm", runtime_php)
    ∷ []

abbrev pub native_servers : Dict Bytes Runtime
native_servers =
    (codes "nginx", codes "nginx")
    ∷ (codes "httpd", codes "httpd")
    ∷ (codes "apache2", codes "httpd")
    ∷ []

abbrev pub go_daemon_denylist : List Bytes
go_daemon_denylist =
    codes "apm2go"
    ∷ codes "obi"
    ∷ codes "dockerd"
    ∷ codes "containerd"
    ∷ codes "kubelet"
    ∷ codes "etcd"
    ∷ codes "runc"
    ∷ codes "docker-proxy"
    ∷ []

-- The loop over the prefixes.
unfoldable pub first_prefix : Bytes → List (Bytes × Runtime) → Option Runtime
first_prefix base [] = none
first_prefix base ((prefix, runtime) ∷ ps) =
    let later = first_prefix base ps in if has_prefix base prefix then some runtime else later

unfoldable pub classify_exe : Bytes → Option Runtime
unfolding first_prefix
classify_exe base = first_prefix base interpreter_prefix

pub record Proc : Type 0 where
  pub exe : Option Bytes
  pub cmdline_raw : Option Bytes
  pub status_raw : Option Bytes
  pub cgroup_raw : Option Bytes
  pub fd_links : Option (List (Option Bytes))
  pub tcp_tables : List (Option (List Bytes))
  pub has_build_info : Bool

-- The ports of a process; a failure to list its descriptors leaves none, which the callers treat alike.
unfoldable pub ports_of : Proc → List ℕ
ports_of p = elim p.fd_links [
  | none ↦ []
  | some links ↦ listen_ports (socket_inodes links) p.tcp_tables
]

unfoldable pub container_of_proc : Option Bytes → Bytes
container_of_proc none = []
container_of_proc (some text) = container_id_in text

-- The target, if it listens.
abbrev pub if_listening : ℕ → Runtime → Bytes → Proc → Option Target
if_listening pid runtime name p =
    if is_empty (ports_of p)
    then none
    else some (record {
      pid = pid;
      runtime = runtime;
      name = name;
      container = container_of_proc p.cgroup_raw;
      ports = ports_of p;
    })

unfoldable pub classify_interpreter : ℕ → Runtime → Bytes → Proc → Option Target
classify_interpreter pid runtime exe_base p =
    let argv = argv_of p.cmdline_raw in
    if bytes_eq runtime runtime_php
    then (if is_empty (php_fpm_pool_name argv)
        then none
        else if_listening pid runtime (php_fpm_pool_name argv) p)
    else if_listening pid runtime (script_name argv exe_base) p

abbrev pub parent_line : Option Bytes → Option (Option ℤ) → Option (Option ℤ)
parent_line none later = later
parent_line (some value) later = some (atoi (trim_space value))

-- The first line with the prefix decides, whether its value is a number or not.
unfoldable pub parent_lines : List Bytes → Option (Option ℤ)
parent_lines [] = none
parent_lines (line ∷ lines) = parent_line (cut_prefix line (codes "PPid:")) (parent_lines lines)

abbrev pub flatten : Option (Option ℤ) → Option ℤ
flatten none = none
flatten (some n) = n

unfoldable pub parent_pid : Option Bytes → Option ℤ
parent_pid none = none
parent_pid (some raw) = flatten (parent_lines (split 10 raw))

-- A pid above 0.
abbrev pub positive_pid : Option ℤ → Option ℕ
positive_pid none = none
positive_pid (some (pos n)) = if ltb 0 n then some n else none
positive_pid (some (negsuc n)) = none

abbrev pub other_program : Option Bytes → Option Bytes → Bool
other_program (some self) (some parent) = not (bytes_eq (base_name self) (base_name parent))
other_program _ _ = true

module _ (procs : ℕ → Proc) where
  unfoldable pub is_process_master : Proc → Bool
  is_process_master p = elim (positive_pid (parent_pid p.status_raw)) [
    | none ↦ true
    | some parent ↦ other_program p.exe (procs parent).exe
  ]

  unfoldable pub classify_native_server : ℕ → Runtime → Proc → Option Target
  classify_native_server pid runtime p =
      if not (is_process_master p) then none else if_listening pid runtime runtime p

  unfoldable pub classify_go_binary : ℕ → Bytes → Proc → Option Target
  classify_go_binary pid exe_base p =
      if not p.has_build_info then none else if_listening pid runtime_go exe_base p

  -- What the loop makes of a process whose executable has this base name.
  abbrev pub classify_other : ℕ → Bytes → Proc → Option Runtime → Option Target
  classify_other pid base p (some runtime) = classify_native_server pid runtime p
  classify_other pid base p none =
      if contains base go_daemon_denylist then none else classify_go_binary pid base p

  abbrev pub classify_as : ℕ → Bytes → Proc → Option Runtime → Option Target
  classify_as pid base p (some runtime) = classify_interpreter pid runtime base p
  classify_as pid base p none = classify_other pid base p (lookup base native_servers)

  abbrev pub classify_proc : ℕ → Proc → Option Bytes → Option Target
  classify_proc pid p none = none
  classify_proc pid p (some exe) = classify_as pid (base_name exe) p (classify_exe (base_name exe))

  abbrev pub cons_target : Option Target → List Target → List Target
  cons_target none ts = ts
  cons_target (some t) ts = t ∷ ts

  abbrev pub target_of : Option ℕ → Option Target
  target_of none = none
  target_of (some pid) = classify_proc pid (procs pid) (procs pid).exe

  -- The loop over the names in the kernel's directory.
  unfoldable pub scan_targets : List Bytes → List Target
  scan_targets [] = []
  scan_targets (name ∷ names) =
      cons_target (target_of (positive_pid (atoi name))) (scan_targets names)

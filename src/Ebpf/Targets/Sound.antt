-- ===== src/Ebpf/Targets/Sound.antt =====
-- About Scan (internal/ebpf/discover.go): what every target satisfies.
use apm2go.Base.{
  ℕ, List, [], ◌∷◌, Bool, true, false, not, if◌then◌else◌, is_empty, All, any, ltb, Option, none,
  some, ◌≡◌, ◌⊎◌, inl, inr, refl, arith,
}
use apm2go.Base.Eq.{Bytes, bytes_eq, text_eq, codes}
use apm2go.Base.Int.{pos}
use apm2go.Base.Text.{has_prefix}
use apm2go.Base.Dict.{lookup, contains}
use apm2go.Base.Parse.{atoi}
use apm2go.Network.Ports.{socket_inodes, listen_ports}
use apm2go.Network.Ports.Canonical.{IsAscending, listen_ports-IsAscending}
use apm2go.Discovery.Naming.{base_name}
use apm2go.Ebpf.Targets.Names.{argv_of, php_fpm_pool_name, script_name}
use apm2go.Ebpf.Targets.{
  Runtime, runtime_php, runtime_go, Target, Proc, ports_of, go_daemon_denylist, native_servers,
  if_listening, classify_exe, first_prefix, parent_pid, classify_interpreter, is_process_master,
  classify_native_server, classify_go_binary, classify_other, classify_as, classify_proc,
  cons_target, target_of, positive_pid, scan_targets,
}

-- No parent of the process that its status names and whose executable can be read runs a program of the
-- same name.
abbrev pub IsFirst : (ℕ → Proc) → Proc → Type 0
IsFirst procs p =
    (parent : ℕ) (self other : Bytes)
    → parent_pid p.status_raw ≡ some (pos parent)
    → ltb 0 parent ≡ true
    → p.exe ≡ some self
    → (procs parent).exe ≡ some other
    → bytes_eq (base_name self) (base_name other) ≡ false

-- What the executable of a target's process is: an interpreter, by the beginning of its name; one of the
-- web servers, and the first of its processes; or a binary that Go built and that is none of the daemons passed over.
abbrev pub IsWorthwhile : (ℕ → Proc) → Proc → Bytes → Type 0
IsWorthwhile procs p base =
    (any (λ s. has_prefix base s) (codes "node" ∷ codes "python" ∷ codes "php-fpm" ∷ []) ≡ true)
    ⊎ (((r : Runtime) × (lookup base native_servers ≡ some r)) × IsFirst procs p)
    ⊎ ((contains base go_daemon_denylist ≡ false) × (p.has_build_info ≡ true))

pub record IsTarget (procs : ℕ → Proc) (t : Target) : Type 0 where
  pub listens : is_empty t.ports ≡ false
  pub own_ports : t.ports ≡ ports_of (procs t.pid)
  pub ascending : IsAscending t.ports
  pub program : Bytes
  pub runs_program : (procs t.pid).exe ≡ some program
  pub worthwhile : IsWorthwhile procs (procs t.pid) (base_name program)

ports_of-IsAscending : (p : Proc) → IsAscending (ports_of p)
unfolding ports_of
ports_of-IsAscending p = go p.fd_links
  where
    go :
        (o : Option (List (Option Bytes)))
        → IsAscending
            (elim o [ none ↦ [] | some links ↦ listen_ports (socket_inodes links) p.tcp_tables ])
    go none = tt
    go (some links) = (listen_ports-IsAscending (socket_inodes links) p.tcp_tables).0

-- A predicate of what may be there.
abbrev Holds : (Target → Type 0) → Option Target → Type 0
Holds P none = Unit
Holds P (some t) = P t

known-classify_exe :
    (base : Bytes) (r : Runtime)
    → classify_exe base ≡ some r
    → any (λ s. has_prefix base s) (codes "node" ∷ codes "python" ∷ codes "php-fpm" ∷ []) ≡ true
unfolding classify_exe first_prefix
known-classify_exe base r h = ground (arith, h)

module _ (procs : ℕ → Proc) where
  IsFirst-master : (p : Proc) → is_process_master procs p ≡ true → IsFirst procs p
  unfolding is_process_master
  IsFirst-master p h parent self other named above runs above_runs =
      ground (arith, rw (named, above, runs, above_runs, is_process_master) at h)

  Holds-if :
      (P : Target → Type 0) (b : Bool) (o : Option Target)
      → (b ≡ false → Holds P o)
      → Holds P (if b then none else o)
  Holds-if P true o h = tt
  Holds-if P false o h = h refl

  IsTarget-listening :
      (pid : ℕ) (runtime : Runtime) (name exe : Bytes)
      → (procs pid).exe ≡ some exe
      → IsWorthwhile procs (procs pid) (base_name exe)
      → Holds (IsTarget procs) (if_listening pid runtime name (procs pid))
  IsTarget-listening pid runtime name exe e w =
      Holds-if (IsTarget procs) (is_empty (ports_of (procs pid))) _ (λ listens. record {
        listens = listens;
        own_ports = refl;
        ascending = ports_of-IsAscending (procs pid);
        program = exe;
        runs_program = e;
        worthwhile = w;
      })

  IsTarget-interpreter :
      (pid : ℕ) (runtime : Runtime) (exe : Bytes)
      → (procs pid).exe ≡ some exe
      → classify_exe (base_name exe) ≡ some runtime
      → Holds (IsTarget procs) (classify_interpreter pid runtime (base_name exe) (procs pid))
  unfolding classify_interpreter
  IsTarget-interpreter pid runtime exe e c = go (bytes_eq runtime runtime_php)
    where
      pool : Bytes
      pool = php_fpm_pool_name (argv_of (procs pid).cmdline_raw)

      go :
          (php : Bool)
          → Holds (IsTarget procs) (
              if php
              then (if is_empty pool then none else if_listening pid runtime pool (procs pid))
              else if_listening pid runtime
                  (script_name (argv_of (procs pid).cmdline_raw) (base_name exe))
                  (procs pid))
      go true = Holds-if (IsTarget procs) (is_empty pool) _ (λ named.
          IsTarget-listening pid runtime pool exe e
            (inl (known-classify_exe (base_name exe) runtime c)))
      go false =
          IsTarget-listening pid runtime _ exe e
            (inl (known-classify_exe (base_name exe) runtime c))

  IsTarget-other :
      (pid : ℕ) (exe : Bytes) (o : Option Runtime)
      → (procs pid).exe ≡ some exe
      → lookup (base_name exe) native_servers ≡ o
      → Holds (IsTarget procs) (classify_other procs pid (base_name exe) (procs pid) o)
  unfolding classify_native_server classify_go_binary
  IsTarget-other pid exe (some runtime) e l =
      Holds-if (IsTarget procs) (not (is_process_master procs (procs pid))) _ (λ master.
        IsTarget-listening pid runtime runtime exe e
          (inr (inl ((runtime, l), IsFirst-master (procs pid) (ground (arith, master))))))
  IsTarget-other pid exe none e l =
      Holds-if (IsTarget procs) (contains (base_name exe) go_daemon_denylist) _ (λ allowed.
        Holds-if (IsTarget procs) (not (procs pid).has_build_info) _ (λ built.
          IsTarget-listening pid runtime_go (base_name exe) exe e
            (inr (inr (allowed, ground (arith, built))))))

  IsTarget-as :
      (pid : ℕ) (exe : Bytes) (o : Option Runtime)
      → (procs pid).exe ≡ some exe
      → classify_exe (base_name exe) ≡ o
      → Holds (IsTarget procs) (classify_as procs pid (base_name exe) (procs pid) o)
  IsTarget-as pid exe (some runtime) e c = IsTarget-interpreter pid runtime exe e c
  IsTarget-as pid exe none e c = IsTarget-other pid exe _ e refl

  IsTarget-proc :
      (pid : ℕ) (o : Option Bytes)
      → (procs pid).exe ≡ o
      → Holds (IsTarget procs) (classify_proc procs pid (procs pid) o)
  IsTarget-proc pid none e = tt
  IsTarget-proc pid (some exe) e = IsTarget-as pid exe _ e refl

  IsTarget-of : (o : Option ℕ) → Holds (IsTarget procs) (target_of procs o)
  IsTarget-of none = tt
  IsTarget-of (some pid) = IsTarget-proc pid _ refl

  All-cons_target :
      (P : Target → Type 0) (o : Option Target) (ts : List Target)
      → Holds P o
      → All P ts
      → All P (cons_target procs o ts)
  All-cons_target P none ts h k = k
  All-cons_target P (some t) ts h k = (h, k)

  -- Every target of a scan listens, on exactly the ports that its process listens on, in ascending
  -- order. Its executable's name begins with that of a known interpreter; or it is that of a web server,
  -- and the parent, where its status names one whose executable can be read, runs a program of another
  -- name; or it is none of the daemons on the list, and the executable is a binary of Go.
  pub scan_targets-IsTarget : (names : List Bytes) → All (IsTarget procs) (scan_targets procs names)
  unfolding scan_targets
  scan_targets-IsTarget [] = tt
  scan_targets-IsTarget (name ∷ names) =
      All-cons_target (IsTarget procs) (target_of procs (positive_pid (atoi name)))
        (scan_targets procs names) (IsTarget-of (positive_pid (atoi name)))
        (scan_targets-IsTarget names)

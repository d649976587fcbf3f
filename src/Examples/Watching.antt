-- ===== src/Examples/Watching.antt =====
-- The targets of a host, what tells them apart, and the supervisor that is told of them.
use apm2go.Base.{ℕ, List, [], ◌∷◌, true, map, All, none, some, ◌≡◌, refl}
use apm2go.Base.Eq.{Bytes, codes, bytes_eq, text_eq}
use apm2go.Base.Dict.{contains}
use apm2go.Base.Text.{join}
use apm2go.Discovery.Naming.{decimal}
use apm2go.Ebpf.Supervisor.{target_key, same_targets, new_supervisor, backoff_over, received_change}
use apm2go.Ebpf.Supervisor.Sameness.{NoRepeat, same_targets-contains}
use apm2go.Ebpf.Supervisor.Wakeups.{Deed, new_targets, run_event, perform_all, IsAwake, run-IsAwake}
use apm2go.Ebpf.Targets.{Target, Proc, scan_targets}
use apm2go.Ebpf.Targets.Sound.{IsTarget, scan_targets-IsTarget}
use apm2go.Ebpf.Sharing.{drop_shared_ports}
use apm2go.Ebpf.Sharing.Separate.{IsSettled, drop_shared_ports-IsSettled}

-- Process 7 is a Go binary that listens on port 80.
abbrev a_proc : ℕ → Proc
a_proc pid = record {
  exe = some (codes "/srv/shop");
  cmdline_raw = some (codes "shop");
  status_raw = none;
  cgroup_raw = none;
  fd_links = some (some (codes "socket:[5]") ∷ []);
  tcp_tables =
      some (
        codes "header"
        ∷ codes "0: 0100007F:0050 00000000:0000 0A 00000000:00000000 00:00000000 00000000 0 0 5 1"
        ∷ [])
      ∷ [];
  has_build_info = true;
}

scan_targets-IsTarget_example :
    All (IsTarget a_proc) (scan_targets a_proc (codes "7" ∷ codes "net" ∷ []))
scan_targets-IsTarget_example = scan_targets-IsTarget a_proc (codes "7" ∷ codes "net" ∷ [])

abbrev web : ℕ → Bytes → List ℕ → Target
web pid name ports = record {
  pid = pid;
  runtime = name;
  name = name;
  container = [];
  ports = ports;
}

-- Two web servers that both have port 80 besides their own.
abbrev two_servers : List Target
two_servers = web 7 (codes "nginx") (80 ∷ 8100 ∷ []) ∷ web 8 (codes "httpd") (80 ∷ 8101 ∷ []) ∷ []

drop_shared_ports-IsSettled_example :
    All (IsSettled two_servers (drop_shared_ports two_servers)) (drop_shared_ports two_servers)
drop_shared_ports-IsSettled_example = drop_shared_ports-IsSettled two_servers (refl, (refl, tt))

abbrev a_change : List Deed
a_change =
    new_targets two_servers
    ∷ run_event backoff_over
    ∷ new_targets []
    ∷ run_event received_change
    ∷ []

run-IsAwake_example :
    IsAwake (perform_all a_change new_supervisor).place (perform_all a_change new_supervisor)
run-IsAwake_example = run-IsAwake a_change

-- The same two servers in the other order.
abbrev two_turned : List Target
two_turned = web 8 (codes "httpd") (80 ∷ 8101 ∷ []) ∷ web 7 (codes "nginx") (80 ∷ 8100 ∷ []) ∷ []

turned_same : same_targets two_servers two_turned ≡ true
unfolding same_targets target_key join decimal bytes_eq contains
turned_same = refl

turned-NoRepeat : NoRepeat (map target_key two_turned)
unfolding target_key join decimal bytes_eq contains
turned-NoRepeat = (refl, (refl, tt))

same_targets-contains_example :
    contains (target_key (web 7 (codes "nginx") (80 ∷ 8100 ∷ []))) (map target_key two_servers)
    ≡ contains (target_key (web 7 (codes "nginx") (80 ∷ 8100 ∷ []))) (map target_key two_turned)
same_targets-contains_example =
    same_targets-contains two_servers two_turned turned-NoRepeat turned_same
      (target_key (web 7 (codes "nginx") (80 ∷ 8100 ∷ [])))

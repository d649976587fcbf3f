-- ===== src/Ebpf/Sharing.antt =====
-- internal/ebpf/discoverer.go: disambiguate and dropSharedPorts; and portSelector of
-- internal/ebpf/config.go. A map of counts is the function that counts.
pub mod Separate
use apm2go.Base.{
  ℕ, ◌+◌, List, [], ◌∷◌, ◌++◌, Bool, true, false, not, ◌&&◌, if◌then◌else◌, ◌==◌, ltb, length, map,
  filter, is_empty,
}
use apm2go.Base.Eq.{Bytes, codes, bytes_eq}
use apm2go.Base.Int.{pos}
use apm2go.Base.Text.{join}
use apm2go.Ingest.Values.{format_int}
use apm2go.Ebpf.Targets.{Target, first_port}

-- How often a port stands in a list.
unfoldable pub times_in : ℕ → List ℕ → ℕ
times_in port [] = 0
times_in port (p ∷ ps) = let rest = times_in port ps in if p == port then rest + 1 else rest

-- claims[port]
unfoldable pub claims : ℕ → List Target → ℕ
claims port [] = 0
claims port (t ∷ ts) = times_in port t.ports + claims port ts

abbrev pub distinct_ports : List Target → List ℕ → List ℕ
distinct_ports all = filter (λ port. claims port all == 1)

abbrev pub fewer_ports : List ℕ → List ℕ → List ℕ
fewer_ports distinct ports =
    if not (is_empty distinct) && not (length distinct == length ports) then distinct else ports

-- The loop that cuts the ports; the claims are those of all the targets.
unfoldable pub drop_shared : List Target → List Target → List Target
drop_shared all [] = []
drop_shared all (t ∷ ts) =
    record t { ports = fewer_ports (distinct_ports all t.ports) t.ports } ∷ drop_shared all ts

unfoldable pub drop_shared_ports : List Target → List Target
drop_shared_ports targets = drop_shared targets targets

-- counts[name]
unfoldable pub named_so : Bytes → List Target → ℕ
named_so name [] = 0
named_so name (t ∷ ts) =
    let rest = named_so name ts in if bytes_eq t.name name then rest + 1 else rest

abbrev pub with_port : Target → Bytes
with_port t = t.name ++ (codes "-" ++ format_int (pos (first_port t.ports)))

-- The loop that names; the counts are those of all the targets.
unfoldable pub rename : List Target → List Target → List Target
rename all [] = []
rename all (t ∷ ts) =
    record t { name = if ltb 1 (named_so t.name all) then with_port t else t.name } ∷ rename all ts

unfoldable pub disambiguate : List Target → List Target
unfolding drop_shared_ports
disambiguate targets = let out = drop_shared_ports targets in rename out out

unfoldable pub port_selector : List ℕ → Bytes
port_selector ports = join (codes ",") (map (λ p. format_int (pos p)) ports)

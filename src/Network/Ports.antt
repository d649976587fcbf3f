-- ===== src/Network/Ports.antt =====
-- internal/ebpf/listenports.go: listenPorts, parseSocketLink, listeningPortsInTable and parseLocalPort,
-- on the lines of the tables and the targets of the descriptors, where a file that cannot be read is
-- `none`. The map of the ports seen holds exactly those collected, so the list stands for both.
pub mod Canonical
use apm2go.Base.{
  ℕ, suc, ◌+◌, ◌-◌, List, [], ◌∷◌, ◌++◌, Bool, true, false, not, ◌||◌, ◌&&◌, if◌then◌else◌, ◌==◌,
  ltb, length, take, drop, get_elem?, Option, none, some,
}
use apm2go.Base.Eq.{Bytes, codes, bytes_eq, nat_eq}
use apm2go.Base.Text.{has_prefix, cut}
use apm2go.Base.Parse.{parse_uint, fields}
use apm2go.Base.Dict.{contains, add}
use apm2go.Base.Sorting.{sort_by}

-- strings.HasSuffix s of one byte
abbrev ends_with : ℕ → Bytes → Bool
ends_with c [] = false
ends_with c (a ∷ []) = a == c
ends_with c (a ∷ b ∷ s) = ends_with c (b ∷ s)

unfoldable pub parse_socket_link : Bytes → Option ℕ
parse_socket_link target =
    if not (has_prefix target (codes "socket:[")) || not (ends_with b']' target)
    then none
    else parse_uint (take (length target - 1 - 8) (drop 8 target)) 10 64

abbrev add_inode : Option ℕ → List ℕ → List ℕ
add_inode none inodes = inodes
add_inode (some inode) inodes = add inode inodes

-- The inodes of the descriptors, of which those that cannot be read are passed over.
unfoldable pub socket_inodes : List (Option Bytes) → List ℕ
socket_inodes [] = []
socket_inodes (none ∷ links) = socket_inodes links
socket_inodes (some target ∷ links) = add_inode (parse_socket_link target) (socket_inodes links)

abbrev after_colon : Bytes × Bytes × Bool → Option ℕ
after_colon (_, hex_port, found) = if found then parse_uint hex_port 16 32 else none

unfoldable pub parse_local_port : Bytes → Option ℕ
parse_local_port local_address = after_colon (cut b':' local_address)

abbrev port_of_inode : List ℕ → Bytes → Option ℕ → Option ℕ
port_of_inode owned local_address none = none
port_of_inode owned local_address (some inode) =
    if contains inode owned then parse_local_port local_address else none

-- The port of a row, if the process listens on it.
unfoldable pub row_port : List ℕ → List Bytes → Option ℕ
row_port owned (_ ∷ local_address ∷ _ ∷ state ∷ _ ∷ _ ∷ _ ∷ _ ∷ _ ∷ inode ∷ _) =
    if not (bytes_eq state (codes "0A"))
    then none
    else port_of_inode owned local_address (parse_uint inode 10 64)
row_port owned _ = none

abbrev pub cons_some : Option ℕ → List ℕ → List ℕ
cons_some none ports = ports
cons_some (some port) ports = port ∷ ports

-- The loop over the lines behind the header.
unfoldable pub rows_ports : List ℕ → List Bytes → List ℕ
rows_ports owned [] = []
rows_ports owned (line ∷ lines) = cons_some (row_port owned (fields line)) (rows_ports owned lines)

unfoldable pub listening_ports_in_table : List ℕ → List Bytes → List ℕ
listening_ports_in_table owned lines = rows_ports owned (drop 1 lines)

-- The loop over the ports of a table.
unfoldable pub add_ports : List ℕ → List ℕ → List ℕ
add_ports [] ports = ports
add_ports (p ∷ ps) ports = add_ports ps (if contains p ports then ports else ports ++ p ∷ [])

-- The loop over the tables.
unfoldable pub collect : List ℕ → List (Option (List Bytes)) → List ℕ → List ℕ
collect owned [] ports = ports
collect owned (none ∷ tables) ports = collect owned tables ports
collect owned (some lines ∷ tables) ports =
    collect owned tables (add_ports (listening_ports_in_table owned lines) ports)

unfoldable pub listen_ports : List ℕ → List (Option (List Bytes)) → List ℕ
listen_ports owned tables = sort_by ltb (collect owned tables [])

-- ===== src/Attach/Handshake.antt =====
-- internal/attach/attach_linux.go: connect, attachSocketPath, triggerFilePaths, createTriggerFiles and
-- execute; and LoadAgent of internal/attach/attach.go. The files that exist are a set of paths; what the
-- kernel and the JVM answer is a record. Files come and go only by these calls.
pub mod Cleanup
use apm2go.Base.{
  ℕ, List, [], ◌∷◌, ◌++◌, Bool, true, false, not, ◌||◌, if◌then◌else◌, ◌==◌, is_empty, Option, none,
  some,
}
use apm2go.Base.Eq.{Bytes, codes, text_eq}
use apm2go.Base.Int.{ℤ, pos, ltb_ℤ}
use apm2go.Base.Dict.{contains, remove}
use apm2go.Ingest.Values.{format_int}
use apm2go.Attach.Request.{load_agent_request}
use apm2go.Attach.Reply.{Response, Decoded}

pub record AttachTarget : Type 0 where
  pub proc_root : Bytes
  pub pid : ℤ
  pub ns_pid : ℤ
  pub jar_path : Bytes
  pub agent_options : Bytes

abbrev pub pid_dir : AttachTarget → Bytes
pid_dir o = o.proc_root ++ (codes "/" ++ format_int o.pid)

unfoldable pub attach_socket_path : AttachTarget → Bytes
attach_socket_path o = pid_dir o ++ (codes "/root/tmp/.java_pid" ++ format_int o.ns_pid)

unfoldable pub trigger_file_paths : AttachTarget → List Bytes
trigger_file_paths o =
    (pid_dir o ++ (codes "/cwd/.attach_pid" ++ format_int o.ns_pid))
    ∷ (pid_dir o ++ (codes "/root/tmp/.attach_pid" ++ format_int o.ns_pid))
    ∷ []

pub record Kernel : Type 0 where
  pub can_create : Bytes → Bool
  pub can_close : Bytes → Bool
  pub can_remove : Bytes → Bool
  pub already_listens : Bool
  pub can_signal : Bool
  -- Whether the socket accepts a connection before the deadline.
  pub starts_listening : Bool

-- The files, and the entries of `created`, of which `none` is a file that was there already.
abbrev pub Created : Type 0
Created = List Bytes × List (Option Bytes)

abbrev pub with_created : Option Bytes → Created → Created
with_created c (files, created) = (files, c ∷ created)

-- `os.Remove`, whose error both callers ignore.
unfoldable pub os_remove : Kernel → Bytes → List Bytes → List Bytes
os_remove k path files = if k.can_remove path then remove path files else files

-- The loop over the paths.
unfoldable pub create_files : Kernel → List Bytes → List Bytes → Created
unfolding os_remove
create_files k [] files = (files, [])
create_files k (path ∷ paths) files =
    let without = create_files k paths files in
    let with = create_files k paths (path ∷ files) in
    let unclosed = create_files k paths (os_remove k path (path ∷ files)) in
    if contains path files
    then with_created none without
    else if not (k.can_create path)
    then without
    else if not (k.can_close path)
    then unclosed
    else with_created (some path) with

-- The loop of the function that removes what was created.
unfoldable pub cleanup : Kernel → List (Option Bytes) → List Bytes → List Bytes
unfolding os_remove
cleanup k [] files = files
cleanup k (none ∷ created) files = cleanup k created files
cleanup k (some path ∷ created) files = cleanup k created (os_remove k path files)

pub data ConnectEnd : Type 0 where
  connected : ConnectEnd
  no_trigger_file : ConnectEnd
  not_signalled : ConnectEnd
  never_opened : ConnectEnd

-- How connecting ends, the files then, and the files when the JVM was signalled, if it was.
pub record Connecting : Type 0 where
  pub end : ConnectEnd
  pub files_left : List Bytes
  pub files_at_signal : Option (List Bytes)

abbrev pub signal_and_wait : Kernel → Created → Connecting
signal_and_wait k (files, created) =
    if is_empty created
    then record {
      end = no_trigger_file;
      files_left = cleanup k created files;
      files_at_signal = none;
    }
    else if not k.can_signal
    then record {
      end = not_signalled;
      files_left = cleanup k created files;
      files_at_signal = none;
    }
    else record {
      end = if k.starts_listening then connected else never_opened;
      files_left = cleanup k created files;
      files_at_signal = some files;
    }

unfoldable pub connect : Kernel → AttachTarget → List Bytes → Connecting
connect k o files =
    let waited = signal_and_wait k (create_files k (trigger_file_paths o) files) in
    if k.already_listens
    then record { end = connected; files_left = files; files_at_signal = none }
    else waited

pub data Loaded : Type 0 where
  invalid_target : Loaded
  invalid_request : Loaded
  not_connected : ConnectEnd → Loaded
  not_sent : Loaded
  replied : Decoded → Loaded

abbrev pub exchange : Bool → Decoded → ConnectEnd → Loaded
exchange sent reply connected = if sent then replied reply else not_sent
exchange sent reply no_trigger_file = not_connected no_trigger_file
exchange sent reply not_signalled = not_connected not_signalled
exchange sent reply never_opened = not_connected never_opened

-- Whether the request could be written, and what its reply decodes to.
unfoldable pub load_agent :
    Kernel → Bool → (Bytes → Decoded) → AttachTarget → List Bytes → Loaded × List Bytes
load_agent k sent reply o files =
    let c = connect k o files in
    if not (ltb_ℤ (pos 0) o.pid) || is_empty o.jar_path
    then (invalid_target, files)
    else elim (load_agent_request o.jar_path o.agent_options) [
      | none ↦ (invalid_request, files)
      | some request ↦ (exchange sent (reply request) c.end, c.files_left)
    ]

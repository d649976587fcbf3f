-- ===== src/Discovery/Launch.antt =====
-- internal/discovery/scanner.go on a command line: isJavaBinary, readCmdline, deriveJavaHome,
-- parseSystemProps, parseAgentFlags, parseEntryPoint, and applyPerfData.
pub mod Flags
pub mod Entries
use apm2go.Base.{
  ℕ, List, [], ◌∷◌, ◌++◌, Bool, true, false, not, ◌&&◌, ◌||◌, if◌then◌else◌, ◌==◌, ltb, is_empty,
  length, Option, none, some, filter,
}
use apm2go.Base.Eq.{Bytes, codes, bytes_eq, text_eq}
use apm2go.Base.Int.{ℤ, pos}
use apm2go.Base.Dict.{Dict, insert}
use apm2go.Base.Text.{cut_prefix, has_prefix, has_suffix, has_substring, split, cut, trim_right}
use apm2go.Base.Parse.{fields}
use apm2go.Discovery.Naming.{base_name}
use apm2go.Discovery.PerfData.{PerfData, major_java_version}

-- The fields of discovery.JVM that a command line and the performance data fill.
pub record Launch : Type 0 where
  pub java_home : Bytes
  pub main_class : Bytes
  pub jar_path : Bytes
  pub java_version : Bytes
  pub java_major : ℤ
  pub vm_name : Bytes
  pub vm_args : List Bytes
  pub system_props : Dict Bytes Bytes
  pub already_instrumented : Bool
  pub instrumented_by_us : Bool

abbrev pub no_launch : Launch
no_launch = record {
  java_home = [];
  main_class = [];
  jar_path = [];
  java_version = [];
  java_major = pos 0;
  vm_name = [];
  vm_args = [];
  system_props = [];
  already_instrumented = false;
  instrumented_by_us = false;
}

unfoldable pub is_java_binary : Bytes → Bool
is_java_binary p =
    if is_empty p
    then false
    else bytes_eq (base_name p) (codes "java") || bytes_eq (base_name p) (codes "javaw")

-- The arguments in the file, of which `none` is one that cannot be read.
unfoldable pub read_cmdline : Option Bytes → List Bytes
read_cmdline none = []
read_cmdline (some raw) =
    if is_empty raw
    then []
    else filter (λ p. not (is_empty p)) (split 0 (trim_right (λ c. c == 0) raw))

-- What stands before the last slash.
unfoldable pub before_last_slash : Bytes → Option Bytes
before_last_slash [] = none
before_last_slash (c ∷ s) = elim (before_last_slash s) [
  | some front ↦ some (c ∷ front)
  | none ↦ if c == b'/' then some [] else none
]

-- filepath.Dir of a path that is clean, as the kernel shows the target of a link.
unfoldable pub dir_name : Bytes → Bytes
unfolding before_last_slash
dir_name path = elim (before_last_slash path) [
  | none ↦ codes "."
  | some [] ↦ codes "/"
  | some front ↦ front
]

-- The loop over the arguments.
unfoldable pub home_property : List Bytes → Bytes
home_property [] = []
home_property (arg ∷ args) = elim (cut_prefix arg (codes "-Djava.home=")) [
  | some v ↦ v
  | none ↦ home_property args
]

unfoldable pub derive_java_home : Bytes → List Bytes → Bytes
derive_java_home exe cmdline =
    if not (is_empty exe) && bytes_eq (base_name (dir_name exe)) (codes "bin")
    then dir_name (dir_name exe)
    else home_property cmdline

-- The key and the value of a -D flag; a bare one has the empty value.
abbrev pub put_flag : Bytes × Bytes × Bool → Dict Bytes Bytes → Dict Bytes Bytes
put_flag (key, value, found) props =
    if is_empty key then props else insert key (if found then value else []) props

abbrev pub put_rest : Option Bytes → Dict Bytes Bytes → Dict Bytes Bytes
put_rest none props = props
put_rest (some rest) props = put_flag (cut b'=' rest) props

-- One argument.
unfoldable pub put_system_prop : Bytes → Dict Bytes Bytes → Dict Bytes Bytes
put_system_prop arg props = put_rest (cut_prefix arg (codes "-D")) props

unfoldable pub parse_system_props : List Bytes → Dict Bytes Bytes → Dict Bytes Bytes
parse_system_props [] props = props
parse_system_props (arg ∷ args) props = parse_system_props args (put_system_prop arg props)

abbrev pub is_agent_flag : Bytes → Bool
is_agent_flag arg = has_prefix arg (codes "-javaagent:")

-- The two marks, already and by us.
unfoldable pub parse_agent_flags : List Bytes → Bool × Bool → Bool × Bool
parse_agent_flags [] marks = marks
parse_agent_flags (arg ∷ args) marks =
    parse_agent_flags args
      (if is_agent_flag arg then (true, marks.1 || has_substring arg (codes "apm2go")) else marks)

abbrev pub takes_value : Bytes → Bool
takes_value arg =
    bytes_eq arg (codes "-cp")
    || bytes_eq arg (codes "-classpath")
    || bytes_eq arg (codes "--module-path")
    || bytes_eq arg (codes "-p")

pub record EntryPoint : Type 0 where
  pub entry_class : Bytes
  pub entry_jar : Bytes
  pub flags : List Bytes

abbrev pub first_of : List Bytes → Bytes
first_of [] = []
first_of (a ∷ args) = a

-- The loop over the arguments behind the first; `skip` is set behind a flag that takes a value.
unfoldable pub entry_loop : Bool → List Bytes → EntryPoint → EntryPoint
entry_loop skip [] e = e
entry_loop true (arg ∷ args) e = entry_loop false args e
entry_loop false (arg ∷ args) e =
    let skipped = entry_loop true args e in
    let kept = entry_loop false args (record e { flags = e.flags ++ arg ∷ [] }) in
    if bytes_eq arg (codes "-jar")
    then (if is_empty args then e else record e { entry_jar = first_of args })
    else if takes_value arg
    then skipped
    else if has_prefix arg (codes "-")
    then kept
    else record e { entry_class = arg }

unfoldable pub parse_entry_point : List Bytes → EntryPoint → EntryPoint
parse_entry_point [] e = e
parse_entry_point (arg ∷ args) e = entry_loop false args e

-- What the three parsers make of a command line.
unfoldable pub parse_launch : Bytes → List Bytes → Launch
parse_launch exe cmdline =
    let marks = parse_agent_flags cmdline (false, false) in
    let e = parse_entry_point cmdline (record { entry_class = []; entry_jar = []; flags = [] }) in
    record no_launch {
      java_home = derive_java_home exe cmdline;
      system_props = parse_system_props cmdline [];
      already_instrumented = marks.0;
      instrumented_by_us = marks.1;
      vm_args = e.flags;
      jar_path = e.entry_jar;
      main_class = e.entry_class;
    }

abbrev pub overlay_version : PerfData → Launch → Launch
overlay_version pd j = if is_empty pd.java_version then j else record j {
  java_version = pd.java_version;
  java_major = major_java_version pd.java_version;
}

abbrev pub overlay_name : PerfData → Launch → Launch
overlay_name pd j = if is_empty pd.vm_name then j else record j { vm_name = pd.vm_name }

abbrev pub overlay_args : PerfData → Launch → Launch
overlay_args pd j =
    let args = fields pd.vm_args in
    let marks = parse_agent_flags args (j.already_instrumented, j.instrumented_by_us) in
    if is_empty pd.vm_args then j else record j {
      vm_args = args;
      system_props = parse_system_props args j.system_props;
      already_instrumented = marks.0;
      instrumented_by_us = marks.1;
    }

abbrev pub overlay_command : PerfData → Launch → Launch
overlay_command pd j =
    let head = (cut b' ' pd.java_command).0 in
    if is_empty pd.java_command || not (is_empty j.main_class) || not (is_empty j.jar_path)
    then j
    else if has_suffix head (codes ".jar")
    then record j { jar_path = head }
    else record j { main_class = head }

unfoldable pub apply_perf_data : PerfData → Launch → Launch
apply_perf_data pd j = overlay_command pd (overlay_args pd (overlay_name pd (overlay_version pd j)))

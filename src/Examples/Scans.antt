-- ===== src/Examples/Scans.antt =====
-- A scan of one process, an injection into it, and the targets and metrics of other runtimes.
use apm2go.Base.{
  ◌*◌, ◌^◌, ◌<◌, List, [], ◌∷◌, ◌++◌, true, false, All, none, some, get_elem?, ◌≡◌, ◌↔◌, refl,
  arith,
}
use apm2go.Base.Eq.{Bytes, codes, bytes_eq, text_eq}
use apm2go.Base.Int.{pos, ◌+ℤ◌, ℤ_eq}
use apm2go.Base.Dict.{lookup, insert, contains}
use apm2go.Base.Text.{has_byte, split, trim_right, has_prefix, is_space}
use apm2go.Base.Parse.{atoi, fields, digits, fields_func, words}
use apm2go.Discovery.Launch.{parse_entry_point, read_cmdline, is_java_binary}
use apm2go.Discovery.Launch.Entries.{
  IsOption, JvmOption, plain, valued, written, plain_flags, no_entry, parse_entry_point-jar,
}
use apm2go.Discovery.Host.{since_boot, start_time_of, read_status, read_boot_time}
use apm2go.Discovery.Host.Starts.{since_boot_iff, start_time-any_command}
use apm2go.Discovery.Naming.{base_name, after_last}
use apm2go.Discovery.Scan.{
  is_jvm, lookup_user, read_perf_data, hsperf_path, paths_from, add_paths, ProcDir, Surroundings,
  Scanner, Discovered,
}
use apm2go.Discovery.Scan.Inspect.{describe, named, scan, inspect, user_and_boot}
use apm2go.Discovery.Scan.Facts.{IsCurrent, IsReported}
use apm2go.Discovery.Scan.Results.{scan-IsReported}

abbrev no_file : ProcDir
no_file = record {
  present = true;
  cmdline_file = some (codes "java" ++ (0 ∷ (codes "-jar" ++ (0 ∷ codes "shop.jar"))));
  exe_link = codes "/usr/bin/java";
  maps_file = none;
  status_file = none;
  stat_file = none;
  modified = some (pos 5);
  cgroup_file = none;
  mnt_link = none;
  net_link = none;
  route_file = none;
  root_path = [];
  perf_dirs = [];
  perf_files = λ path. record { size = none; content = none };
}

abbrev the_host : Surroundings
the_host = record {
  stat_of_host = none;
  host_mnt = codes "mnt:[1]";
  our_net = codes "net:[1]";
  user_named = λ uid. some (codes "root");
  container_of = λ id. none;
}

abbrev new_scanner : Scanner
new_scanner = record { boot_time = none; user_cache = [] }

abbrev used_scanner : Scanner
used_scanner = record { boot_time = none; user_cache = (pos 0, codes "root") ∷ [] }

abbrev the_shop : Discovered
the_shop = named (describe the_host 7 no_file (codes "root") none)

new_scanner-IsCurrent : IsCurrent the_host new_scanner
unfolding lookup
new_scanner-IsCurrent uid name e = cc

shop_found :
    scan the_host 1 (λ pid. no_file) (some ((true, codes "7") ∷ (true, codes "1") ∷ [])) new_scanner
    ≡ some (some (the_shop ∷ []), used_scanner)
unfolding scan inspect user_and_boot lookup_user lookup insert is_jvm is_java_binary read_cmdline
    split trim_right base_name after_last atoi digits read_status read_boot_time read_perf_data
    hsperf_path paths_from add_paths bytes_eq describe contains
shop_found = refl

scan-IsReported_example :
    All (IsReported the_host 1 (λ pid. no_file)) (the_shop ∷ []) × IsCurrent the_host used_scanner
scan-IsReported_example =
    scan-IsReported the_host 1 (λ pid. no_file) ((true, codes "7") ∷ (true, codes "1") ∷ [])
      new_scanner used_scanner (the_shop ∷ []) new_scanner-IsCurrent shop_found

abbrev some_options : List JvmOption
some_options = plain (codes "-Xmx1g") ∷ valued (codes "-cp") (codes "lib/*") ∷ []

options_hold : All IsOption some_options
unfolding has_prefix bytes_eq
options_hold = ((refl, refl, refl), ((refl, refl), tt))

parse_entry_point-jar_example :
    parse_entry_point
      (codes "java" ∷ written some_options (codes "-jar" ∷ codes "shop.jar" ∷ codes "--port" ∷ []))
      no_entry
    ≡ record { entry_class = []; entry_jar = codes "shop.jar"; flags = plain_flags some_options }
parse_entry_point-jar_example =
    parse_entry_point-jar (codes "java") (codes "shop.jar") some_options (codes "--port" ∷ [])
      options_hold

since_boot_iff_example :
    (since_boot (pos 9223372037) ≡ pos (9223372037 * 10000000)) ↔ (9223372037 * 1000000000 < 2 ^ 63)
since_boot_iff_example = since_boot_iff 9223372037

abbrev stat_rest : Bytes
stat_rest = codes "S 1 7 7 0 -1 4 1 2 3 4 5 6 7 8 20 0 9 0 1234 99"

no_parenthesis : has_byte b')' (b' ' ∷ stat_rest) ≡ false
unfolding has_byte
no_parenthesis = refl

field_22 : get_elem? (fields stat_rest) 19 ≡ some (codes "1234")
unfolding fields_func words is_space
field_22 = refl

ticks_1234 : atoi (codes "1234") ≡ some (pos 1234)
unfolding atoi digits
ticks_1234 = refl

start_time-any_command_example :
    start_time_of (some (pos 1000)) (some (codes "7 (a b) c" ++ (b')' ∷ b' ' ∷ stat_rest))) none
    ≡ some (pos 1000 +ℤ pos (1234 * 10000000))
start_time-any_command_example =
    start_time-any_command (pos 1000) none (codes "7 (a b) c") stat_rest (codes "1234") 1234
      (omega arith) (omega arith) no_parenthesis field_22 ticks_1234 (omega arith)

-- ===== src/Examples/PerfFiles.antt =====
-- Files of performance data, a hostile one among them.
use apm2go.Base.{List, [], ◌∷◌, none, ◌≡◌, refl, ◌↔◌, arith}
use apm2go.Base.Eq.{Bytes, codes, bytes_eq}
use apm2go.Base.Int.{pos}
use apm2go.Base.Text.{has_byte, trim_right}
use apm2go.Base.Parse.{atoi, fields_func}
use apm2go.Discovery.PerfData.{
  big_endian, little_endian, uint32_at, no_data, parse_entry, parse_entries, read_entry, cstring,
  parsed, panicked, parse_perf_data, major_java_version,
}
use apm2go.Discovery.PerfData.Panics.{ShortEntry, panics_iff_ShortEntry}
use apm2go.Discovery.PerfData.Encoding.{Counter, put_prologue, put_file, set_counters}
use apm2go.Discovery.PerfData.RoundTrip.{parse_perf_data-put_file}

abbrev versions : List Counter
versions =
    record { name = codes "java.property.java.version"; value = codes "21.0.2" }
    ∷ record { name = codes "sun.rt.javaCommand"; value = codes "app.jar run" }
    ∷ []

versions_read :
    parse_perf_data (put_file little_endian versions)
    ≡ parsed (record no_data { java_version = codes "21.0.2"; java_command = codes "app.jar run" })
unfolding parse_perf_data uint32_at parse_entries parse_entry read_entry cstring trim_right bytes_eq
versions_read = refl

parse_perf_data-put_file_example :
    parse_perf_data (put_file little_endian versions) ≡ parsed (set_counters versions no_data)
unfolding has_byte trim_right
parse_perf_data-put_file_example =
    parse_perf_data-put_file little_endian versions
      (
        record { name_whole = refl; value_whole = refl; value_trimmed = refl; short = omega arith },
        (
          record {
            name_whole = refl;
            value_whole = refl;
            value_trimmed = refl;
            short = omega arith;
          },
          tt,
        ),
      )
      (omega arith)

-- One entry of length 1 in a file of 52 bytes.
abbrev hostile : Bytes
hostile =
    put_prologue big_endian 1
      (0 ∷ 0 ∷ 0 ∷ 1 ∷ 0 ∷ 0 ∷ 0 ∷ 0 ∷ 0 ∷ 0 ∷ 0 ∷ 0 ∷ 0 ∷ 0 ∷ 0 ∷ 0 ∷ 0 ∷ 0 ∷ 0 ∷ 0 ∷ [])

hostile_panics : parse_perf_data hostile ≡ panicked
unfolding parse_perf_data uint32_at parse_entries parse_entry
hostile_panics = refl

panics_iff_ShortEntry_example :
    (parse_entries big_endian hostile 1 32 no_data ≡ none) ↔ ShortEntry big_endian hostile 1 32
panics_iff_ShortEntry_example = panics_iff_ShortEntry big_endian hostile 1 32 no_data

java_8 : major_java_version (codes "1.8.0_402") ≡ pos 8
unfolding major_java_version fields_func atoi
java_8 = refl

java_21 : major_java_version (codes "21.0.11") ≡ pos 21
unfolding major_java_version fields_func atoi
java_21 = refl

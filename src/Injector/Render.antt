-- ===== src/Injector/Render.antt =====
-- internal/injector/injector.go: properties, renderProperties and escapeProperty. What is escaped is
-- ASCII, so it is looked for byte by byte in the text that ranging over runes makes of a string.
pub mod Loading
pub mod Reading
use apm2go.Base.{
  ℕ, zero, suc, ◌-◌, ltb, leb, ◌&&◌, List, [], ◌∷◌, ◌++◌, Bool, true, false, not, ◌||◌,
  if◌then◌else◌, ◌==◌, map, is_empty, Option, none, some,
}
use apm2go.Base.Eq.{Bytes, codes, text_eq}
use apm2go.Base.Int.{pos}
use apm2go.Base.Dict.{Dict, lookup, insert}
use apm2go.Base.Sorting.{bytes_lt, sort_by}
use apm2go.Ingest.Values.{format_int, format_bool}
use apm2go.Discovery.Scan.{Discovered}
use apm2go.Injector.Endpoint.{
  InjectConfig, Url, endpoint_for, metrics_exporter, agent_logging_of, resource_attributes,
}

abbrev pub is_special : ℕ → Bool
is_special c = c == 92 || c == b'=' || c == b':' || c == b'#' || c == b'!'

abbrev pub put_escaped : ℕ → Bytes → Bytes
put_escaped c rest =
    if is_special c
    then 92 ∷ c ∷ rest
    else if c == 10
    then 92 ∷ b'n' ∷ rest
    else if c == 13
    then 92 ∷ b'r' ∷ rest
    else if c == 9
    then 92 ∷ b't' ∷ rest
    else c ∷ rest

abbrev pub within : ℕ → ℕ → ℕ → Bool
within low high c = leb low c && leb c high

abbrev pub continues : ℕ → Bytes → Bool
continues zero s = true
continues (suc n) [] = false
continues (suc n) (c ∷ s) = within 128 191 c && continues n s

-- The second byte of a rune, which some first bytes restrict, and as many more as are asked for.
abbrev pub starts_rune : ℕ → ℕ → Bytes → Bool
starts_rune a n [] = false
starts_rune a n (b ∷ s) =
    within (if a == 224 then 160 else if a == 240 then 144 else 128)
      (if a == 237 then 159 else if a == 244 then 143 else 191) b
    && continues n s

-- How many bytes the rune at the head of the text has by the rules of UTF-8; 0 where none is.
unfoldable pub rune_width : Bytes → ℕ
rune_width [] = 0
rune_width (a ∷ s) =
    if ltb a 128
    then 1
    else if within 194 223 a && starts_rune a 0 s
    then 2
    else if within 224 239 a && starts_rune a 1 s
    then 3
    else if within 240 244 a && starts_rune a 2 s
    then 4
    else 0

-- The loop, with the bytes that are left of the current rune: U+FFFD for a byte that starts none.
unfoldable pub range_runes : ℕ → Bytes → Bytes
range_runes n [] = []
range_runes (suc n) (c ∷ s) = c ∷ range_runes n s
range_runes zero (c ∷ s) =
    let width = rune_width (c ∷ s) in
    let rest = range_runes (width - 1) s in if width == 0 then 239 ∷ 191 ∷ 189 ∷ rest else c ∷ rest

-- What `for _, r := range s` and WriteRune make of a string.
abbrev pub valid_utf8 : Bytes → Bytes
valid_utf8 s = range_runes 0 s

unfoldable pub escape_bytes : Bytes → Bytes
escape_bytes [] = []
escape_bytes (c ∷ s) = put_escaped c (escape_bytes s)

unfoldable pub escape_property : Bytes → Bytes
escape_property s = escape_bytes (valid_utf8 s)

abbrev pub put_all : List (Bytes × Bytes) → Dict Bytes Bytes → Dict Bytes Bytes
put_all [] props = props
put_all ((k, v) ∷ kvs) props = put_all kvs (insert k v props)

-- The token: there is no registry, issuing failed, or there is one.
pub data Issued : Type 0 where
  no_registry : Issued
  issue_failed : Issued
  issued_token : Bytes → Issued

abbrev pub with_token : Issued → Dict Bytes Bytes → Option (Dict Bytes Bytes)
with_token no_registry props = some props
with_token issue_failed props = none
with_token (issued_token token) props =
    some (insert (codes "otel.exporter.otlp.headers") (codes "x-apm2go-token=" ++ token) props)

-- The literal of the source.
abbrev pub default_properties : Bytes → Bytes → InjectConfig → Discovered → List (Bytes × Bytes)
default_properties endpoint host_name cfg jvm =
    (codes "otel.service.name", jvm.service_name)
    ∷ (codes "otel.exporter.otlp.protocol", codes "grpc")
    ∷ (codes "otel.exporter.otlp.endpoint", endpoint)
    ∷ (codes "otel.traces.exporter", codes "otlp")
    ∷ (codes "otel.metrics.exporter", metrics_exporter cfg)
    ∷ (codes "otel.metric.export.interval", cfg.metrics_interval)
    ∷ (codes "otel.instrumentation.runtime-telemetry.enabled", format_bool cfg.metrics_enabled)
    ∷ (codes "otel.logs.exporter", codes "none")
    ∷ (codes "otel.traces.sampler", codes "parentbased_traceidratio")
    ∷ (codes "otel.traces.sampler.arg", cfg.sample_ratio)
    ∷ (codes "otel.javaagent.logging", agent_logging_of cfg)
    ∷ (codes "otel.resource.attributes", resource_attributes host_name jvm)
    ∷ []

abbrev pub with_overrides : Dict Bytes Bytes → Option (Dict Bytes Bytes) → Option (Dict Bytes Bytes)
with_overrides extra none = none
with_overrides extra (some props) = some (put_all extra props)

unfoldable pub properties :
    (Bytes → Option Url) → Bytes → InjectConfig → Discovered → Issued → Option (Dict Bytes Bytes)
properties parse_url host_name cfg jvm issued = with_overrides cfg.extra_properties (
    with_token issued
      (put_all (default_properties (endpoint_for parse_url cfg jvm) host_name cfg jvm) []))

abbrev pub value_of : Bytes → Dict Bytes Bytes → Bytes
value_of k props = elim (lookup k props) [ none ↦ [] | some v ↦ v ]

-- The loop over the sorted keys.
unfoldable pub render_keys : List Bytes → Dict Bytes Bytes → Bytes
render_keys [] props = []
render_keys (k ∷ ks) props =
    escape_property k
    ++ (b'=' ∷ (escape_property (value_of k props) ++ (10 ∷ render_keys ks props)))

abbrev pub sorted_keys : Dict Bytes Bytes → List Bytes
sorted_keys props = sort_by bytes_lt (map (λ (p : Bytes × Bytes). p.0) props)

-- The first line, at the time that is written in it.
abbrev pub heading : ℕ → Bytes → Bytes
heading pid now =
    codes "# Generated by apm2go for pid " ++ (format_int (pos pid) ++ (codes " at " ++ now))

unfoldable pub render_properties : ℕ → Bytes → Dict Bytes Bytes → Bytes
render_properties pid now props = heading pid now ++ (10 ∷ render_keys (sorted_keys props) props)

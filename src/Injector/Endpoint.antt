-- ===== src/Injector/Endpoint.antt =====
-- internal/injector/injector.go: endpointFor, reachabilityWarning, rewriteHost, resourceAttributes,
-- metricsExporter, agentLogging, stagingPaths, fitsInline; and Attachable of internal/discovery/jvm.go.
-- Go's url package is a parameter: what it reads in an endpoint and the text of what it then holds.
use apm2go.Base.{
  ℕ, ◌+◌, List, [], ◌∷◌, ◌++◌, Bool, true, false, not, ◌&&◌, leb, if◌then◌else◌, is_empty, length,
  Option, none, some, ◌≡◌, ◌⊎◌, arith,
}
use apm2go.Base.Eq.{Bytes, codes}
use apm2go.Base.Dict.{Dict}
use apm2go.Base.Int.{pos, ltb_ℤ}
use apm2go.Base.Text.{join}
use apm2go.Ingest.Binder.{ContainerBind, bind_off, bind_auto, bind_all}
use apm2go.Ingest.Values.{format_int}
use apm2go.Discovery.Scan.{Discovered}

-- The fields of config.AttachConfig that the injector reads; the numbers are as they are written.
pub record InjectConfig : Type 0 where
  pub otlp_endpoint : Bytes
  pub container_otlp_endpoint : Bytes
  pub container_bind : ContainerBind
  pub metrics_enabled : Bool
  pub metrics_interval : Bytes
  pub sample_ratio : Bytes
  pub agent_logging : Bytes
  pub require_token : Bool
  pub extra_properties : Dict Bytes Bytes

-- What url.Parse, Host, Port and String give: the text with another host.
pub record Url : Type 0 where
  pub parsed_host : Bytes
  pub port : Bytes
  pub with_host : Bytes → Bytes

-- net.JoinHostPort
abbrev pub join_host : Bytes → Bytes → Bytes
join_host host port = host ++ (codes ":" ++ port)

abbrev pub rewritten : Bytes → Bytes → Option Url → Bytes
rewritten endpoint host none = endpoint
rewritten endpoint host (some u) =
    if is_empty u.parsed_host
    then endpoint
    else if not (is_empty u.port)
    then u.with_host (join_host host u.port)
    else u.with_host host

module _ (parse_url : Bytes → Option Url) where
  unfoldable pub rewrite_host : Bytes → Bytes → Bytes
  rewrite_host endpoint host = rewritten endpoint host (parse_url endpoint)

  unfoldable pub endpoint_for : InjectConfig → Discovered → Bytes
  endpoint_for cfg jvm =
      if jvm.shares_our_network
      then cfg.otlp_endpoint
      else if not (is_empty cfg.container_otlp_endpoint)
      then cfg.container_otlp_endpoint
      else if not (is_empty jvm.gateway_text)
      then rewrite_host cfg.otlp_endpoint jvm.gateway_text
      else cfg.otlp_endpoint

abbrev pub is_off : ContainerBind → Bool
is_off bind_off = true
is_off bind_auto = false
is_off bind_all = false

pub data Warning : Type 0 where
  bound_to_loopback : Bytes → Warning
  no_route : Warning
  refused_token : Warning

-- `none` is the empty text.
unfoldable pub reachability_warning : InjectConfig → Discovered → Option Warning
reachability_warning cfg jvm =
    if jvm.shares_our_network
    then none
    else if not (is_empty cfg.container_otlp_endpoint)
    then none
    else if not (is_empty jvm.gateway_text)
    then (if is_off cfg.container_bind then some (bound_to_loopback jvm.gateway_text) else none)
    else some no_route

abbrev pub inline_option_budget : ℕ
inline_option_budget = 900

unfoldable pub fits_inline : Bytes → Bytes → Bool
fits_inline jar_path config_text =
    leb (length jar_path + 1 + length config_text) inline_option_budget

unfoldable pub metrics_exporter : InjectConfig → Bytes
metrics_exporter cfg = if cfg.metrics_enabled then codes "otlp" else codes "none"

unfoldable pub agent_logging_of : InjectConfig → Bytes
agent_logging_of cfg = if is_empty cfg.agent_logging then codes "none" else cfg.agent_logging

abbrev pub attribute_if : Bytes → Bytes → List Bytes
attribute_if name value = if is_empty value then [] else (name ++ value) ∷ []

unfoldable pub resource_attributes : Bytes → Discovered → Bytes
resource_attributes host_name jvm = join (codes ",") (
    (codes "host.name=" ++ host_name)
    ∷ (codes "process.pid=" ++ format_int (pos jvm.pid))
    ∷ (codes "process.runtime.version=" ++ jvm.launch.java_version)
    ∷ codes "apm2go.injected=true"
    ∷ (attribute_if (codes "container.id=") jvm.labels.container
        ++ attribute_if (codes "apm2go.systemd.unit=") jvm.labels.unit))

-- The directory as we see it, and as the target does.
unfoldable pub staging_paths : Bytes → ℕ → Bytes × Bytes
staging_paths proc_root pid = (
  proc_root ++ (codes "/" ++ (format_int (pos pid) ++ codes "/root/tmp/apm2go")),
  codes "/tmp/apm2go",
)

-- Whether a JVM can be instrumented.
unfoldable pub attachable_now : Discovered → Bool
attachable_now jvm =
    if ltb_ℤ (pos 0) jvm.launch.java_major && ltb_ℤ jvm.launch.java_major (pos 8)
    then false
    else not jvm.launch.instrumented_by_us

-- Without a warning the endpoint is one that the JVM is meant to reach: our own where it shares our
-- network, the one configured for containers, or our own with its gateway in the place of the host,
-- at which apm2go is then configured to listen.
pub endpoint_for-unwarned :
    (parse_url : Bytes → Option Url) (cfg : InjectConfig) (jvm : Discovered)
    → reachability_warning cfg jvm ≡ none
    → ((jvm.shares_our_network ≡ true) × (endpoint_for parse_url cfg jvm ≡ cfg.otlp_endpoint))
      ⊎ ((is_empty cfg.container_otlp_endpoint ≡ false)
          × (endpoint_for parse_url cfg jvm ≡ cfg.container_otlp_endpoint))
      ⊎ ((is_empty jvm.gateway_text ≡ false)
          × (is_off cfg.container_bind ≡ false)
          × (endpoint_for parse_url cfg jvm
              ≡ rewrite_host parse_url cfg.otlp_endpoint jvm.gateway_text))
unfolding reachability_warning endpoint_for
endpoint_for-unwarned parse_url cfg jvm h = ground arith

-- ===== src/Examples/Injections.antt =====
-- An injection into a JVM, its handshake, and a request with metrics.
use apm2go.Base.{ℕ, List, [], ◌∷◌, ◌++◌, true, false, not, Option, none, some, ◌≡◌, refl}
use apm2go.Base.Eq.{bytes_eq, Bytes, codes, text_eq}
use apm2go.Base.Int.{ℤ, pos}
use apm2go.Base.Dict.{lookup, Dict}
use apm2go.Base.Text.{split, has_prefix}
use apm2go.Discovery.Launch.{no_launch}
use apm2go.Discovery.Naming.{fallback}
use apm2go.Discovery.Scan.{Discovered}
use apm2go.Ingest.Binder.{bind_auto}
use apm2go.Attach.Handshake.{Kernel, AttachTarget, connect}
use apm2go.Attach.Handshake.Cleanup.{IsClean, connect-IsClean}
use apm2go.Injector.Endpoint.{InjectConfig, Url, staging_paths, reachability_warning}
use apm2go.Injector.Render.{
  render_keys, escape_property, escape_bytes, range_runes, rune_width, properties, issued_token,
}
use apm2go.Attach.Properties.{unescape_property}
use apm2go.Injector.Render.Loading.{load_properties}
use apm2go.Injector.Steps.{Answers, inject}
use apm2go.Injector.Steps.Order.{IsTold, IsDelivered, inject-IsTold}
use apm2go.Ingest.Metrics.{
  finite, infinite, as_double, as_int, gauge_data, histogram_data, other_data, ResourceMetrics,
}

-- A JVM in a container, on a network of its own.
abbrev contained : Discovered
contained = record {
  pid = 7;
  ids = record { uid = pos 0; gid = pos 0; ns_pid = pos 1 };
  user = codes "root";
  service_name = codes "shop";
  name_source = fallback;
  cmdline = codes "java" ∷ [];
  exe_path = codes "/usr/bin/java";
  launch = record no_launch { java_version = codes "21"; java_major = pos 21 };
  started = some (pos 5);
  in_container = true;
  shares_our_network = false;
  gateway_text = codes "172.17.0.1";
  labels = record { container = codes "c0ffee"; unit = []; pod_uid = [] };
  container_info = none;
}

abbrev the_config : InjectConfig
the_config = record {
  otlp_endpoint = codes "http://127.0.0.1:4317";
  container_otlp_endpoint = [];
  container_bind = bind_auto;
  metrics_enabled = true;
  metrics_interval = codes "15000";
  sample_ratio = codes "1";
  agent_logging = [];
  require_token = true;
  extra_properties = (codes "otel.service.name", codes "a=b") ∷ [];
}

-- What Go's url package reads in the endpoint of the configuration.
abbrev parse_example : Bytes → Option Url
parse_example endpoint = some (record {
  parsed_host = codes "127.0.0.1:4317";
  port = codes "4317";
  with_host = λ host. codes "http://" ++ host;
})

abbrev all_well : Answers
all_well = record {
  target_properties = some [];
  has_token = false;
  host_jars = some (codes "/proc/7/root/tmp/apm2go/b.jar", codes "/proc/7/root/tmp/apm2go/o.jar");
  issued = issued_token (codes "t0k3n");
  now = codes "2026-01-02T03:04:05Z";
  config_written = true;
  bootstrap_loads = true;
  otel_loads = true;
}

inject-IsTold_example :
    IsTold all_well
      (IsDelivered all_well
        (staging_paths (codes "/proc") contained.pid)
        contained
        (properties parse_example (codes "host") the_config contained all_well.issued))
      (inject parse_example (codes "/proc") (codes "host") all_well the_config contained)
inject-IsTold_example =
    inject-IsTold parse_example (codes "/proc") (codes "host") all_well the_config contained

unwarned : reachability_warning the_config contained ≡ none
unfolding reachability_warning
unwarned = refl

abbrev two_properties : Dict Bytes Bytes
two_properties =
    (codes "b", codes "x=y: z#!" ++ (195 ∷ 169 ∷ [])) ∷ (codes "a:1", 92 ∷ 10 ∷ 9 ∷ []) ∷ []

-- A value that begins with a blank is read without it.
abbrev indented : Dict Bytes Bytes
indented = (codes "a", codes " b") ∷ []

indented_loses :
    load_properties (render_keys (codes "a" ∷ []) indented) ≡ (codes "a", codes "b") ∷ []
unfolding render_keys escape_property escape_bytes range_runes rune_width split unescape_property
    lookup bytes_eq
indented_loses = refl

-- A gauge with one point that is stored and one that is infinite, a histogram, and a summary.
abbrev a_metric_request : List ResourceMetrics
a_metric_request =
    record {
      attributes = [];
      scope_metrics =
          (record {
            name = codes "jvm.memory.used";
            unit = codes "By";
            payload = gauge_data (
                record { at = 5; value = as_int (pos 3); attributes = [] }
                ∷ record { at = 5; value = as_double infinite; attributes = [] }
                ∷ []);
          }
            ∷ record {
              name = codes "jvm.gc.duration";
              unit = codes "s";
              payload = histogram_data (
                  record {
                    at = 6;
                    count = 3;
                    sum = finite 9;
                    explicit_bounds = finite 1 ∷ [];
                    bucket_counts = 1 ∷ 2 ∷ [];
                    attributes = [];
                  }
                  ∷ []);
            }
            ∷ record { name = codes "s"; unit = []; payload = other_data }
            ∷ [])
          ∷ [];
    }
    ∷ []

abbrev as_float : ℤ → ℕ
as_float (pos n) = n
as_float n = 0

-- A working directory that is not writable, and a JVM that never listens.
abbrev hostile_kernel : Kernel
hostile_kernel = record {
  can_create = λ path. not (has_prefix path (codes "/proc/7/cwd"));
  can_close = λ path. true;
  can_remove = λ path. true;
  already_listens = false;
  can_signal = true;
  starts_listening = false;
}

abbrev attach_to_7 : AttachTarget
attach_to_7 = record {
  proc_root = codes "/proc";
  pid = pos 7;
  ns_pid = pos 1;
  jar_path = codes "/tmp/apm2go/b.jar";
  agent_options = [];
}

connect-IsClean_example :
    IsClean hostile_kernel attach_to_7
      (codes "/etc/hosts" ∷ [])
      (connect hostile_kernel attach_to_7 (codes "/etc/hosts" ∷ []))
connect-IsClean_example = connect-IsClean hostile_kernel attach_to_7 (codes "/etc/hosts" ∷ [])

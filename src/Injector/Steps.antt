-- ===== src/Injector/Steps.antt =====
-- internal/injector/injector.go: Inject, alreadyInstrumented and the path of writeConfigFile. What the
-- target, the disk and the tokens answer is a record; the configuration file that is written and the
-- agent loads that are tried are part of the result, in order. Durations and logging are left out.
pub mod Order
use apm2go.Base.{
  ℕ, List, [], ◌∷◌, ◌++◌, Bool, true, false, not, ◌&&◌, if◌then◌else◌, is_empty, length, Option,
  none, some,
}
use apm2go.Base.Eq.{Bytes, codes, text_eq}
use apm2go.Base.Int.{pos}
use apm2go.Base.Dict.{Dict, lookup}
use apm2go.Ingest.Values.{format_int}
use apm2go.Discovery.Naming.{base_name}
use apm2go.Discovery.Scan.{Discovered}
use apm2go.Injector.Endpoint.{
  InjectConfig, Url, Warning, refused_token, endpoint_for, reachability_warning, fits_inline,
  staging_paths, attachable_now,
}
use apm2go.Injector.Render.{
  Issued, no_registry, issue_failed, issued_token, properties, render_properties,
}

abbrev pub marker_property : Bytes
marker_property = codes "apm2go.bootstrap.applied"

pub record Answers : Type 0 where
  pub target_properties : Option (Dict Bytes Bytes)
  pub has_token : Bool
  pub host_jars : Option (Bytes × Bytes)
  pub issued : Issued
  pub now : Bytes
  pub config_written : Bool
  pub bootstrap_loads : Bool
  pub otel_loads : Bool

-- injector.Result
pub record Injection : Type 0 where
  pub found_instrumented : Bool
  pub bootstrap_jar : Bytes
  pub otel_jar : Bytes
  pub config_file : Bytes
  pub told_endpoint : Bytes
  pub inject_warnings : List Warning

pub data InjectError : Type 0 where
  not_attachable staging_failed token_failed not_written bootstrap_failed otel_failed : InjectError

pub data Injected : Type 0 where
  completed : Injection → Injected
  failed : InjectError → Injected

-- What is done to the target: a file written, with its path and its text, or an agent loaded, with its
-- jar and its options.
pub data Effect : Type 0 where
  wrote : Bytes → Bytes → Effect
  load : Bytes → Bytes → Effect

abbrev pub Injecting : Type 0
Injecting = Injected × List Effect

unfoldable pub load_otel : Answers → Injection → List Effect → Injecting
load_otel a r effects =
    (if a.otel_loads then completed r else failed otel_failed, effects ++ load r.otel_jar [] ∷ [])

unfoldable pub load_bootstrap : Answers → Bytes → Injection → List Effect → Injecting
load_bootstrap a options r written =
    let effects = written ++ load r.bootstrap_jar options ∷ [] in
    if a.bootstrap_loads then load_otel a r effects else (failed bootstrap_failed, effects)

abbrev pub joined : Bytes → Bytes → Bytes
joined dir name = dir ++ (codes "/" ++ name)

abbrev pub config_name : Discovered → Bytes
config_name jvm = codes "agent-" ++ (format_int jvm.ids.ns_pid ++ codes ".properties")

abbrev pub inline_note : Bytes → Bytes
inline_note text = codes "(inline, " ++ (format_int (pos (length text)) ++ codes " bytes)")

-- Inline when it fits, by a file otherwise, which is written at the host's path and named by the
-- target's.
unfoldable pub deliver : Answers → Bytes × Bytes → Discovered → Bytes → Injection → Injecting
deliver a (host, target) jvm text r =
    let path = joined target (config_name jvm) in
    if fits_inline r.bootstrap_jar text
    then load_bootstrap a text (record r { config_file = inline_note text }) []
    else if a.config_written
    then load_bootstrap a path (record r { config_file = path })
        (wrote (joined host (config_name jvm)) text ∷ [])
    else (failed not_written, [])

abbrev pub configure :
    Answers → Bytes × Bytes → Discovered → Option (Dict Bytes Bytes) → Injection → Injecting
configure a paths jvm none r = (failed token_failed, [])
configure a paths jvm (some props) r = deliver a paths jvm (render_properties jvm.pid a.now props) r

abbrev pub stage :
    Answers
    → Bytes × Bytes
    → Discovered
    → Option (Dict Bytes Bytes)
    → Injection
    → Option (Bytes × Bytes)
    → Injecting
stage a paths jvm props r none = (failed staging_failed, [])
stage a paths jvm props r (some (bootstrap, otel)) = configure a paths jvm props (record r {
  bootstrap_jar = joined paths.1 (base_name bootstrap);
  otel_jar = joined paths.1 (base_name otel);
})

abbrev pub has_marker : Option (Dict Bytes Bytes) → Bool
has_marker none = false
has_marker (some props) = elim (lookup marker_property props) [ none ↦ false | some _ ↦ true ]

abbrev pub warnings_of : Option Warning → List Warning
warnings_of none = []
warnings_of (some w) = w ∷ []

abbrev pub has_registry : Issued → Bool
has_registry no_registry = false
has_registry issue_failed = true
has_registry (issued_token token) = true

abbrev pub token_warnings : Answers → InjectConfig → List Warning
token_warnings a cfg =
    if cfg.require_token && has_registry a.issued && not a.has_token then refused_token ∷ [] else []

module _ (parse_url : Bytes → Option Url) (proc_root host_name : Bytes) where
  abbrev pub first_result : InjectConfig → Discovered → Injection
  first_result cfg jvm = record {
    found_instrumented = false;
    bootstrap_jar = [];
    otel_jar = [];
    config_file = [];
    told_endpoint = endpoint_for parse_url cfg jvm;
    inject_warnings = warnings_of (reachability_warning cfg jvm);
  }

  unfoldable pub inject : Answers → InjectConfig → Discovered → Injecting
  inject a cfg jvm =
      let r = first_result cfg jvm in
      let staged =
        stage a (staging_paths proc_root jvm.pid) jvm
          (properties parse_url host_name cfg jvm a.issued) r a.host_jars in
      if not (attachable_now jvm)
      then (failed not_attachable, [])
      else if has_marker a.target_properties
      then (
        completed (record r {
          found_instrumented = true;
          inject_warnings = r.inject_warnings ++ token_warnings a cfg;
        }),
        [],
      )
      else staged

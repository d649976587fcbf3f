-- ===== src/Injector/Steps/Order.antt =====
-- About Inject (internal/injector/injector.go): which agents are loaded, in which order and with what.
use apm2go.Base.{
  ◌+◌, ◌≤◌, ◌<◌, List, [], ◌∷◌, ◌++◌, Bool, true, false, not, if◌then◌else◌, length, Option, none,
  some, ◌≡◌, ◌⊎◌, refl, arith, inl, inr,
}
use apm2go.Base.Eq.{Bytes}
use apm2go.Base.Dict.{Dict}
use apm2go.Discovery.Naming.{base_name}
use apm2go.Discovery.Scan.{Discovered}
use apm2go.Injector.Endpoint.{InjectConfig, Url, fits_inline, staging_paths, attachable_now}
use apm2go.Injector.Render.{properties, render_properties}
use apm2go.Injector.Steps.{
  Answers, Injection, completed, failed, Effect, wrote, load, Injecting, not_attachable, joined,
  config_name, inline_note, token_warnings, otel_failed, bootstrap_failed, not_written, load_otel,
  load_bootstrap, deliver, stage, has_marker, first_result, inject,
}

abbrev pub loads_in : List Effect → List Bytes
loads_in [] = []
loads_in (wrote path text ∷ effects) = loads_in effects
loads_in (load jar options ∷ effects) = jar ∷ loads_in effects

-- The two loads with the text of a configuration: as the first one's options where it fits, and in a
-- file that the options name where it does not.
abbrev pub IsBoth : Bytes × Bytes → Discovered → Bytes → Bytes → Bytes → List Effect → Type 0
IsBoth (host, target) jvm bootstrap otel text effects =
    ((length bootstrap + 1 + length text ≤ 900)
      × (effects ≡ load bootstrap text ∷ load otel [] ∷ []))
    ⊎ ((900 < length bootstrap + 1 + length text)
        × (effects
            ≡ wrote (joined host (config_name jvm)) text
              ∷ load bootstrap (joined target (config_name jvm))
              ∷ load otel []
              ∷ []))

-- The loads of the jars that were staged, with the configuration of this JVM.
abbrev pub IsDelivered :
    Answers → Bytes × Bytes → Discovered → Option (Dict Bytes Bytes) → List Effect → Type 0
IsDelivered a paths jvm props effects =
    (bootstrap otel : Bytes) × (settings : Dict Bytes Bytes) × (a.host_jars
      ≡ some (bootstrap, otel))
    × (props ≡ some settings)
    × IsBoth paths jvm (joined paths.1 (base_name bootstrap)) (joined paths.1 (base_name otel))
        (render_properties jvm.pid a.now settings) effects

-- What a result says: a completed injection found the marker and did nothing, or did all that `D` asks;
-- a failed one made the second load only behind a first that succeeded.
abbrev pub IsTold : Answers → (List Effect → Type 0) → Injecting → Type 0
IsTold a D (completed r, effects) =
    ((r.found_instrumented ≡ true) × (has_marker a.target_properties ≡ true) × (effects ≡ []))
    ⊎ ((r.found_instrumented ≡ false)
        × (a.bootstrap_loads ≡ true)
        × (a.otel_loads ≡ true)
        × D effects)
IsTold a D (failed e, effects) =
    (length (loads_in effects) ≤ 1)
    ⊎ ((a.bootstrap_loads ≡ true) × (a.otel_loads ≡ false) × (length (loads_in effects) ≡ 2))

module _ (a : Answers) (D : List Effect → Type 0) where
  IsTold-load_otel :
      (r : Injection) (effects : List Effect)
      → r.found_instrumented ≡ false
      → a.bootstrap_loads ≡ true
      → length (loads_in (effects ++ load r.otel_jar [] ∷ [])) ≡ 2
      → D (effects ++ load r.otel_jar [] ∷ [])
      → IsTold a D (load_otel a r effects)
  unfolding load_otel
  IsTold-load_otel r effects f b two d = go a.otel_loads refl
    where
      go :
          (o : Bool)
          → a.otel_loads ≡ o
          → IsTold a D
              (if o then completed r else failed otel_failed, effects ++ load r.otel_jar [] ∷ [])
      go true e = inr (f, b, e, d)
      go false e = inr (b, e, two)

  IsTold-load_bootstrap :
      (options : Bytes) (r : Injection) (written : List Effect)
      → r.found_instrumented ≡ false
      → length (loads_in (written ++ load r.bootstrap_jar options ∷ [])) ≤ 1
      → length
          (loads_in ((written ++ load r.bootstrap_jar options ∷ []) ++ load r.otel_jar [] ∷ []))
        ≡ 2
      → D ((written ++ load r.bootstrap_jar options ∷ []) ++ load r.otel_jar [] ∷ [])
      → IsTold a D (load_bootstrap a options r written)
  unfolding load_bootstrap
  IsTold-load_bootstrap options r written f one two d = go a.bootstrap_loads refl
    where
      effects : List Effect
      effects = written ++ load r.bootstrap_jar options ∷ []

      go :
          (b : Bool)
          → a.bootstrap_loads ≡ b
          → IsTold a D (if b then load_otel a r effects else (failed bootstrap_failed, effects))
      go true e = IsTold-load_otel r effects f e two d
      go false e = inl one

fits : (jar text : Bytes) → fits_inline jar text ≡ true → length jar + 1 + length text ≤ 900
unfolding fits_inline
fits jar text h = ground arith

exceeds : (jar text : Bytes) → fits_inline jar text ≡ false → 900 < length jar + 1 + length text
unfolding fits_inline
exceeds jar text h = ground arith

IsTold-deliver :
    (a : Answers) (D : List Effect → Type 0) (paths : Bytes × Bytes) (jvm : Discovered)
    (text : Bytes) (r : Injection)
    → r.found_instrumented ≡ false
    → ((es : List Effect) → IsBoth paths jvm r.bootstrap_jar r.otel_jar text es → D es)
    → IsTold a D (deliver a paths jvm text r)
unfolding deliver
IsTold-deliver a D paths jvm text r f d =
    go (fits_inline r.bootstrap_jar text) a.config_written refl
  where
    path : Bytes
    path = joined paths.1 (config_name jvm)

    go :
        (fit written : Bool)
        → fits_inline r.bootstrap_jar text ≡ fit
        → IsTold a D (
            if fit
            then load_bootstrap a text (record r { config_file = inline_note text }) []
            else if written
            then load_bootstrap a path
                (record r { config_file = path })
                (wrote (joined paths.0 (config_name jvm)) text ∷ [])
            else (failed not_written, []))
    go true written e =
        IsTold-load_bootstrap a D text (record r { config_file = inline_note text }) [] f
          (omega arith) refl (d _ (inl (fits r.bootstrap_jar text e, refl)))
    go false true e =
        IsTold-load_bootstrap a D path (record r { config_file = path })
          (wrote (joined paths.0 (config_name jvm)) text ∷ []) f (omega arith) refl
          (d _ (inr (exceeds r.bootstrap_jar text e, refl)))
    go false false e = inl (omega arith)

IsTold-stage :
    (a : Answers) (paths : Bytes × Bytes) (jvm : Discovered) (props : Option (Dict Bytes Bytes))
    (r : Injection) (jars : Option (Bytes × Bytes))
    → a.host_jars ≡ jars
    → r.found_instrumented ≡ false
    → IsTold a (IsDelivered a paths jvm props) (stage a paths jvm props r jars)
IsTold-stage a paths jvm props r none s f = inl (omega arith)
IsTold-stage a paths jvm none r (some (bootstrap, otel)) s f = inl (omega arith)
IsTold-stage a paths jvm (some settings) r (some (bootstrap, otel)) s f =
    IsTold-deliver a (IsDelivered a paths jvm (some settings)) paths jvm
      (render_properties jvm.pid a.now settings) _ f
      (λ es both. (bootstrap, otel, settings, s, refl, both))

-- Whatever the target and the disk answer: a completed injection found the marker and did nothing, or it
-- loaded exactly the staged bootstrap agent and then the staged OpenTelemetry agent, both with success.
-- The first got the rendered configuration of this JVM as its options, where that and the jar's path fit
-- the 900 bytes of its argument, and otherwise the target's path of a file into which it was written
-- before. A failed injection tried at most one load, unless the bootstrap agent was loaded and the other
-- one failed.
pub inject-IsTold :
    (parse_url : Bytes → Option Url) (proc_root host_name : Bytes) (a : Answers)
    (cfg : InjectConfig) (jvm : Discovered)
    → IsTold a
        (IsDelivered a
          (staging_paths proc_root jvm.pid)
          jvm
          (properties parse_url host_name cfg jvm a.issued))
        (inject parse_url proc_root host_name a cfg jvm)
unfolding inject
inject-IsTold parse_url proc_root host_name a cfg jvm =
    pick (attachable_now jvm) (has_marker a.target_properties) refl
      (stage a (staging_paths proc_root jvm.pid) jvm
        (properties parse_url host_name cfg jvm a.issued)
        (first_result parse_url proc_root host_name cfg jvm) a.host_jars)
      (IsTold-stage a (staging_paths proc_root jvm.pid) jvm
        (properties parse_url host_name cfg jvm a.issued)
        (first_result parse_url proc_root host_name cfg jvm) a.host_jars refl refl)
  where
    D : List Effect → Type 0
    D =
        IsDelivered a (staging_paths proc_root jvm.pid) jvm
          (properties parse_url host_name cfg jvm a.issued)

    pick :
        (can marked : Bool)
        → has_marker a.target_properties ≡ marked
        → (staged : Injecting) → IsTold a D staged
        → IsTold a D (
            if not can
            then (failed not_attachable, [])
            else if marked
            then (
              completed (record (first_result parse_url proc_root host_name cfg jvm) {
                found_instrumented = true;
                inject_warnings =
                    (first_result parse_url proc_root host_name cfg jvm).inject_warnings
                    ++ token_warnings a cfg;
              }),
              [],
            )
            else staged)
    pick false marked e staged h = inl (omega arith)
    pick true true e staged h = inl (refl, e, refl)
    pick true false e staged h = h

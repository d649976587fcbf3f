-- ===== src/Examples/Exports.antt =====
-- Tokens and routes of a few exports.
use apm2go.Base.{inl, List, [], ◌∷◌, true, false, none, some, ◌≡◌, refl, ◌⊎◌, ◌≢◌}
use apm2go.Base.Eq.{Bytes, codes, bytes_eq, bytes_eq_iff}
use apm2go.Base.Dict.{Dict}
use apm2go.Base.Text.{join, split, trim_left, trim_right, has_prefix, index_byte}
use apm2go.Ingest.Tokens.{
  missing, holds, Stage, write_stage, Fate, goes, crashes, saved, save_stages, save_locked, stages,
  accepts, World, restart, issue, revoke, Action, act_issue, act_revoke, act_restart, run,
}
use apm2go.Ingest.Tokens.Saving.{save_stages_atomic}
use apm2go.Ingest.Tokens.Durability.{issued_token_survives}
use apm2go.Ingest.Tokens.Revocation.{revoked_token_refused}
use apm2go.Ingest.Tokens.Starts.{starts_never_refused}
use apm2go.Base.Eq.{text_eq}
use apm2go.Ingest.Route.{
  is_identifier_segment, is_all_digits, is_uuid, is_long_hex, has_long_digit_run, digit_run_from,
  normalize_route, segments_of, path_of, after_scheme, from_slash, without_query, template, capped,
}
use apm2go.Ingest.Route.Shape.{both_end, same_segment, both_identify}
use apm2go.Ingest.Route.Groups.{IsRequest, relative, absolute, IsPath, normalize_route_groups}
use apm2go.Base.Text.{has_byte, has_substring}
use apm2go.Discovery.Naming.{
  Process, is_generated_suffix, tally, drop_tail, trim_segments, trim_pod_suffixes,
  jar_service_name, trim_suffix, base_name, after_last, trim_all, is_version_segment,
  digits_and_dots,
}

abbrev well : Stage → Fate
well s = goes

-- The process dies while it writes.
abbrev torn : Stage → Fate
torn write_stage = crashes
torn _ = goes

abbrev token : Bytes
token = codes "t0"

abbrev other : Bytes
other = codes "t1"

abbrev shop : Bytes
shop = codes "shop"

abbrev blank : World
blank = record {
  registry = record { valid = []; persistent = true };
  disk = record { file = missing; temp = none };
  refused_start = false;
}

abbrev one_token : Dict Bytes Bytes
one_token = (token, shop) ∷ []

save_stages_atomic_example :
    let r = save_stages torn one_token stages blank.disk in
    ((r.0.file ≡ missing) ⊎ (r.0.file ≡ holds one_token))
    × (r.1 ≡ saved → r.0.file ≡ holds one_token)
save_stages_atomic_example = save_stages_atomic torn one_token blank.disk

abbrev later : List Action
later = act_issue torn (some other) shop ∷ act_revoke well other ∷ act_restart ∷ []

issued_well : (issue well (some token) shop blank).1 ≡ some token
unfolding issue save_locked save_stages
issued_well = refl

distinct_tokens : other ≢ token
unfolding bytes_eq
distinct_tokens = λ h. let e : false ≡ true = (bytes_eq_iff other token).1 h in cc

issued_token_survives_example :
    let w' = run later (issue well (some token) shop blank).0 in
    (accepts token w'.registry ≡ true) × (accepts token (restart w').registry ≡ true)
issued_token_survives_example =
    issued_token_survives token well shop blank later refl refl issued_well (distinct_tokens, tt)

revoked_token_refused_example :
    let r = revoke well token blank in
    (accepts token r.0.registry ≡ false)
    × (true ≡ true → r.1 ≡ saved → accepts token (restart r.0).registry ≡ false)
revoked_token_refused_example = revoked_token_refused token well blank

starts_never_refused_example :
    (run (act_issue torn (some token) shop ∷ later) blank).refused_start ≡ false
starts_never_refused_example =
    starts_never_refused blank (act_issue torn (some token) shop ∷ later) refl refl

abbrev one_order : Bytes
one_order = codes "http://shop/orders/8123?full=1"

abbrev another_order : Bytes
another_order = codes "/orders/77/"

digits_identify :
    (is_identifier_segment (codes "8123") ≡ true) × (is_identifier_segment (codes "77") ≡ true)
unfolding is_identifier_segment is_all_digits
digits_identify = (refl, refl)

one_order-IsRequest : IsRequest one_order (codes "/orders/8123")
unfolding has_byte
one_order-IsRequest =
    absolute (codes "http") (codes "shop") (codes "orders/8123") (codes "?full=1") refl refl
      (inl refl) refl refl

one_order-IsPath : IsPath (codes "/orders/8123")
unfolding has_byte bytes_eq
one_order-IsPath = record { no_query = refl; no_fragment = refl; not_empty = refl; not_root = refl }

another_order-IsRequest : IsRequest another_order another_order
unfolding has_substring has_prefix
another_order-IsRequest = relative [] refl tt refl

another_order-IsPath : IsPath another_order
unfolding has_byte bytes_eq
another_order-IsPath = record {
  no_query = refl;
  no_fragment = refl;
  not_empty = refl;
  not_root = refl;
}

normalize_route_groups_example : normalize_route one_order ≡ normalize_route another_order
unfolding segments_of split trim_left trim_right
normalize_route_groups_example =
    normalize_route_groups one_order (codes "/orders/8123") another_order another_order
      one_order-IsRequest one_order-IsPath another_order-IsRequest another_order-IsPath
      (same_segment (codes "orders") (codes "orders") _ _ refl (
        both_identify (codes "8123") (codes "77") [] [] digits_identify.0 digits_identify.1
          both_end))

-- What the doc of `NormalizeRoute` shows.
documented_route : normalize_route (codes "/api/orders/8123/items") ≡ codes "/api/orders/{id}/items"
unfolding normalize_route segments_of path_of after_scheme from_slash without_query split trim_left
    trim_right has_prefix index_byte bytes_eq is_identifier_segment is_all_digits is_uuid
    is_long_hex has_long_digit_run digit_run_from template capped join
documented_route = refl

abbrev node : Dict Bytes Bytes
node = (codes "telemetry.sdk.language", codes " Generic ") ∷ []

abbrev orders : Process
orders = record {
  pid = 41;
  system_props = [];
  container = some (record {
    name = [];
    compose_service = [];
    pod_name = codes "orders-7d9f8b6c4d-x2k9p";
    app_label = [];
  });
  jar_path = codes "/opt/app.jar";
  systemd_unit = [];
  main_class = [];
}

abbrev pod : List Bytes
pod = codes "7d9f8b6c4d" ∷ codes "x2k9p" ∷ []

-- The example in the doc of `trimPodSuffixes`.
documented_pod : trim_pod_suffixes (codes "checkout-7d9f8b6c4d-x2k9p") ≡ codes "checkout"
unfolding trim_pod_suffixes split join is_generated_suffix tally drop_tail trim_segments
documented_pod = refl

-- The example in the doc of `jarServiceName`.
documented_jar :
    jar_service_name (codes "/opt/app/orders-service-1.4.2-SNAPSHOT.jar") ≡ codes "orders-service"
unfolding jar_service_name trim_suffix base_name after_last trim_all trim_segments drop_tail
    is_version_segment digits_and_dots split join trim_right bytes_eq
documented_jar = refl

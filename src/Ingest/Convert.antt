-- ===== src/Ingest/Convert.antt =====
-- internal/receiver/convert.go: Convert, convertSpan, applyHTTP, applyDatabase, applyPeer,
-- convertEvents, toTraceID and toSpanID, and the Span of internal/model. Times are nanoseconds. An
-- enumeration of the wire is a number below 2^32, of which a span keeps the low 8 bits.
pub mod Spans
pub mod Skipping
pub mod Durations
use apm2go.Base.{
  ℕ, suc, ◌+◌, ◌-◌, ◌%◌, ◌^◌, List, [], ◌∷◌, zero, Bool, true, false, not, ◌&&◌, ◌||◌,
  if◌then◌else◌, ◌==◌, ltb, all, is_empty, length, Option, none, some, ◌++◌,
}
use apm2go.Base.Eq.{Bytes, codes, text_eq}
use apm2go.Base.Int.{ℤ, pos, negsuc}
use apm2go.Base.Dict.{Dict, insert}
use apm2go.Base.Parse.{atoi_value}
use apm2go.Ingest.Values.{AnyValue, attributes_to_map}
use apm2go.Ingest.Semconv.{attribute, first_non_empty, detect_runtime}
use apm2go.Ingest.Route.{normalize_route}

abbrev pub unknown_service : Bytes
unknown_service = codes "unknown_service"

pub record OtlpEvent : Type 0 where
  pub time_unix_nano : ℕ
  pub name : Bytes
  pub attributes : List (Bytes × AnyValue)

pub record OtlpSpan : Type 0 where
  pub trace_id : Bytes
  pub span_id : Bytes
  pub parent_span_id : Bytes
  pub name : Bytes
  pub kind : ℕ
  pub start_time_unix_nano : ℕ
  pub end_time_unix_nano : ℕ
  pub status_code : ℕ
  pub status_message : Bytes
  pub attributes : List (Bytes × AnyValue)
  pub events : List OtlpEvent

-- The spans of each scope.
pub record ResourceSpans : Type 0 where
  pub attributes : List (Bytes × AnyValue)
  pub scope_spans : List (List OtlpSpan)

pub record ModelEvent : Type 0 where
  pub timestamp : ℤ
  pub name : Bytes
  pub attributes : Dict Bytes Bytes

pub record ModelSpan : Type 0 where
  pub timestamp : ℤ
  pub duration : ℤ
  pub trace_id : Bytes
  pub span_id : Bytes
  pub parent_span_id : Bytes
  pub service : Bytes
  pub operation : Bytes
  pub kind : ℕ
  pub status : ℕ
  pub status_message : Bytes
  pub host_name : Bytes
  pub pid : ℤ
  pub runtime : Bytes
  pub http_method : Bytes
  pub http_route : Bytes
  pub http_status : ℤ
  pub db_system : Bytes
  pub db_statement : Bytes
  pub db_name : Bytes
  pub peer_service : Bytes
  pub events : List ModelEvent
  pub attributes : Dict Bytes Bytes

-- int64(n), for n below 2^64
unfoldable pub to_int64 : ℕ → ℤ
to_int64 n = if ltb n (2 ^ 63) then pos n else negsuc (2 ^ 64 - 1 - n)

abbrev pub is_zero_id : Bytes → Bool
is_zero_id = all (λ b. b == 0)

-- An id of a size, if the bytes are one that is not zero.
unfoldable pub to_id : ℕ → Bytes → Option Bytes
to_id size b = if length b == size && not (is_zero_id b) then some b else none

abbrev pub to_trace_id : Bytes → Option Bytes
to_trace_id = to_id 16

abbrev pub to_span_id : Bytes → Option Bytes
to_span_id = to_id 8

abbrev pub zero_span_id : Bytes
zero_span_id = 0 ∷ 0 ∷ 0 ∷ 0 ∷ 0 ∷ 0 ∷ 0 ∷ 0 ∷ []

abbrev pub id_or_zero : Option Bytes → Bytes
id_or_zero none = zero_span_id
id_or_zero (some id) = id

unfoldable pub convert_events : List OtlpEvent → List ModelEvent
convert_events [] = []
convert_events (e ∷ es) =
    record {
      timestamp = to_int64 e.time_unix_nano;
      name = e.name;
      attributes = attributes_to_map e.attributes;
    }
    ∷ convert_events es

-- firstNonZero of two
abbrev pub first_non_zero_of : ℤ → ℤ → ℤ
first_non_zero_of (pos zero) b = b
first_non_zero_of a b = a

unfoldable pub apply_http : Dict Bytes Bytes → ModelSpan → ModelSpan
apply_http attrs span =
    let method = first_non_empty (
      attribute (codes "http.request.method") attrs ∷ attribute (codes "http.method") attrs ∷ []) in
    let route = attribute (codes "http.route") attrs in
    let raw = first_non_empty (
      attribute (codes "url.path") attrs
      ∷ attribute (codes "http.target") attrs
      ∷ attribute (codes "url.full") attrs
      ∷ attribute (codes "http.url") attrs
      ∷ []) in
    if is_empty method then record span { http_method = method } else record span {
      http_method = method;
      http_status =
          first_non_zero_of (atoi_value (attribute (codes "http.response.status_code") attrs))
            (atoi_value (attribute (codes "http.status_code") attrs));
      http_route = if is_empty route then normalize_route raw else route;
    }

unfoldable pub apply_database : Dict Bytes Bytes → ModelSpan → ModelSpan
apply_database attrs span =
    let system =
      first_non_empty
        (attribute (codes "db.system.name") attrs ∷ attribute (codes "db.system") attrs ∷ []) in
    if is_empty system then record span { db_system = system } else record span {
      db_system = system;
      db_statement =
          first_non_empty
            (attribute (codes "db.query.text") attrs ∷ attribute (codes "db.statement") attrs ∷ []);
      db_name =
          first_non_empty
            (attribute (codes "db.namespace") attrs ∷ attribute (codes "db.name") attrs ∷ []);
    }

unfoldable pub apply_peer : Dict Bytes Bytes → ModelSpan → ModelSpan
apply_peer attrs span = if not (span.kind == 3 || span.kind == 4) then span else record span {
  peer_service = first_non_empty (
      attribute (codes "peer.service") attrs
      ∷ attribute (codes "server.address") attrs
      ∷ attribute (codes "net.peer.name") attrs
      ∷ attribute (codes "messaging.destination.name") attrs
      ∷ []);
}

-- A resource's attribute that a span carries too, unless it is empty.
abbrev pub carry : Bytes → Dict Bytes Bytes → Dict Bytes Bytes → Dict Bytes Bytes
carry k resource attrs =
    let v = attribute k resource in if is_empty v then attrs else insert k v attrs

-- The time between start and end, as an int64.
unfoldable pub duration_between : ℕ → ℕ → ℤ
duration_between start end = if ltb start end then to_int64 (end - start) else pos 0

-- The span that a valid one is stored as.
unfoldable pub convert_valid :
    OtlpSpan → Bytes → Bytes → Bytes → Bytes → ℤ → Dict Bytes Bytes → ModelSpan
convert_valid s trace_id span_id service host pid resource =
    let attrs = attributes_to_map s.attributes in
    let span : ModelSpan = record {
      timestamp = to_int64 s.start_time_unix_nano;
      duration = duration_between s.start_time_unix_nano s.end_time_unix_nano;
      trace_id = trace_id;
      span_id = span_id;
      parent_span_id = id_or_zero (to_span_id s.parent_span_id);
      service = service;
      operation = s.name;
      kind = s.kind % 256;
      status = s.status_code % 256;
      status_message = s.status_message;
      host_name = host;
      pid = pid;
      runtime = detect_runtime resource;
      http_method = [];
      http_route = [];
      http_status = pos 0;
      db_system = [];
      db_statement = [];
      db_name = [];
      peer_service = [];
      events = convert_events s.events;
      attributes = [];
    } in
    record (apply_peer attrs (apply_database attrs (apply_http attrs span))) {
      attributes =
          carry (codes "service.version") resource (
            carry (codes "apm2go.injected") resource (carry (codes "container.id") resource attrs));
    }

unfoldable pub convert_span : OtlpSpan → Bytes → Bytes → ℤ → Dict Bytes Bytes → Option ModelSpan
convert_span s service host pid resource = elim (to_trace_id s.trace_id) [
  | none ↦ none
  | some trace_id ↦ elim (to_span_id s.span_id) [
    | none ↦ none
    | some span_id ↦
        if s.start_time_unix_nano == 0
        then none
        else some (convert_valid s trace_id span_id service host pid resource)
  ]
]

-- One turn of the innermost loop.
abbrev pub keep_span : Option ModelSpan → List ModelSpan × ℕ → List ModelSpan × ℕ
keep_span none (spans, skipped) = (spans, skipped + 1)
keep_span (some span) (spans, skipped) = (spans ++ span ∷ [], skipped)

unfoldable pub convert_scope :
    (OtlpSpan → Option ModelSpan) → List OtlpSpan → List ModelSpan × ℕ → List ModelSpan × ℕ
convert_scope f [] acc = acc
convert_scope f (s ∷ ss) acc = convert_scope f ss (keep_span (f s) acc)

unfoldable pub convert_scopes :
    (OtlpSpan → Option ModelSpan) → List (List OtlpSpan) → List ModelSpan × ℕ → List ModelSpan × ℕ
convert_scopes f [] acc = acc
convert_scopes f (ss ∷ scopes) acc = convert_scopes f scopes (convert_scope f ss acc)

-- What the loop over the resources makes of a span, with its resource's attributes.
unfoldable pub convert_within : Dict Bytes Bytes → OtlpSpan → Option ModelSpan
convert_within resource s =
    convert_span s
      (first_non_empty (attribute (codes "service.name") resource ∷ unknown_service ∷ []))
      (attribute (codes "host.name") resource)
      (atoi_value (attribute (codes "process.pid") resource)) resource

unfoldable pub convert_from : List ResourceSpans → List ModelSpan × ℕ → List ModelSpan × ℕ
convert_from [] acc = acc
convert_from (rs ∷ resources) acc =
    convert_from resources
      (convert_scopes (convert_within (attributes_to_map rs.attributes)) rs.scope_spans acc)

unfoldable pub convert : List ResourceSpans → List ModelSpan × ℕ
convert resource_spans = convert_from resource_spans ([], 0)

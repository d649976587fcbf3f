-- ===== src/Examples/Requests.antt =====
-- Converted spans, frames of the attach protocol and tables of sockets.
use apm2go.Base.{
  ◌⊎◌, ℕ, ◌+◌, ◌≤◌, ◌^◌, List, [], ◌∷◌, ◌++◌, replicate, true, false, none, some, All, ◌≡◌, ◌↔◌,
  refl, arith, map,
}
use apm2go.Base.Eq.{Bytes, codes, bytes_eq, nat_eq}
use apm2go.Base.Int.{ℤ, pos, ltb_ℤ}
use apm2go.Base.Text.{has_byte, split, is_space}
use apm2go.Base.Parse.{atoi, digits, parse_uint, fields_func, words}
use apm2go.Ingest.Values.{string_value}
use apm2go.Ingest.Convert.{
  OtlpSpan, ResourceSpans, ModelSpan, convert_valid, convert_span, convert, to_id,
}
use apm2go.Ingest.Convert.Spans.{IsStorable, identity}
use apm2go.Ingest.Convert.Skipping.{malformed_in, identities_in, all_spans, convert-IsStorable}
use apm2go.Ingest.Convert.Durations.{negative_duration_iff}
use apm2go.Attach.Request.{protocol_version, encode_request, padded, put_args, split-encode_request}
use apm2go.Attach.Reply.{Response}
use apm2go.Network.Route.{gateway, default_route, parse_hex_address, IsNatural}
use apm2go.Network.Route.Rows.{EachRow, HasRow, gateway_rows, EachRow-routes, gateway-IsLeast}

abbrev a_span : Bytes → ℕ → OtlpSpan
a_span id end = record {
  trace_id = replicate 16 7;
  span_id = id;
  parent_span_id = [];
  name = codes "GET /";
  kind = 2;
  start_time_unix_nano = 5;
  end_time_unix_nano = end;
  status_code = 0;
  status_message = [];
  attributes = (codes "http.method", string_value (codes "GET")) ∷ [];
  events = [];
}

-- A good span and one without an id.
abbrev a_request : List ResourceSpans
a_request =
    record { attributes = []; scope_spans = (a_span (replicate 8 1) 9 ∷ a_span [] 9 ∷ []) ∷ [] }
    ∷ []

convert-IsStorable_example :
    All IsStorable (convert a_request).0
    × ((convert a_request).1 ≡ malformed_in (all_spans a_request))
    × (map identity (convert a_request).0 ≡ identities_in (all_spans a_request))
convert-IsStorable_example = convert-IsStorable a_request

-- A span that ends 2^63 nanoseconds after it starts.
abbrev endless : OtlpSpan
endless = a_span (replicate 8 1) (5 + 2 ^ 63)

abbrev endless_converted : ModelSpan
endless_converted =
    convert_valid endless (replicate 16 7) (replicate 8 1) (codes "shop") [] (pos 1) []

negative_duration_iff_example :
    (ltb_ℤ endless_converted.duration (pos 0) ≡ true) ↔ (5 + 2 ^ 63 ≤ 5 + 2 ^ 63)
unfolding convert_span to_id
negative_duration_iff_example =
    negative_duration_iff endless (codes "shop") [] (pos 1) [] endless_converted (omega arith) refl

abbrev load_args : List Bytes
load_args = codes "instrument" ∷ codes "false" ∷ []

abbrev load_frame : Bytes
load_frame =
    codes "1"
    ++ (0 ∷ (codes "load" ++ (0 ∷ (codes "instrument" ++ (0 ∷ (codes "false" ++ (0 ∷ 0 ∷ [])))))))

split-encode_request_example :
    split 0 load_frame ≡ protocol_version ∷ codes "load" ∷ (padded 3 load_args ++ ([] ∷ []))
unfolding encode_request put_args has_byte
split-encode_request_example = split-encode_request (codes "load") load_args load_frame refl refl

abbrev a_reply : Response
a_reply = record {
  code = pos 0;
  body = codes "x";
  agent_code = pos 0;
  has_agent_code = false;
  truncated = true;
}

abbrev routes : List Bytes
routes =
    codes "Iface Destination Gateway Flags RefCnt Use Metric Mask MTU"
    ∷ codes "eth0 00000000 01001DAC 0003 0 0 100 00000000 0"
    ∷ codes "eth1 00000000 0100A8C0 0003 0 0 5 00000000 0"
    ∷ []

routes-IsNatural : EachRow IsNatural (gateway_rows routes)
unfolding default_route parse_hex_address atoi digits parse_uint bytes_eq fields_func words is_space
routes-IsNatural = EachRow-routes IsNatural (gateway_rows routes) (refl, (refl, tt))

gateway-IsLeast_example :
    ((gateway routes ≡ none) × EachRow (λ r. ⊥) (gateway_rows routes))
    ⊎ ((addr : Bytes) × (metric : ℤ) × (gateway routes ≡ some addr)
        × HasRow (gateway_rows routes) addr metric
        × EachRow (λ r. ltb_ℤ r.1 metric ≡ false) (gateway_rows routes))
gateway-IsLeast_example = gateway-IsLeast routes routes-IsNatural

abbrev table : List Bytes
table =
    codes "  sl  local_address rem_address st tx_queue"
    ∷ codes "   0: 00000000:1F90 00000000:0000 0A 00000000:00000000 00:00000000 00000000 0 0 77 1"
    ∷ codes "   1: 00000000:0050 00000000:0000 0A 00000000:00000000 00:00000000 00000000 0 0 77 1"
    ∷ codes "   2: 00000000:0051 00000000:0000 0A 00000000:00000000 00:00000000 00000000 0 0 12 1"
    ∷ []

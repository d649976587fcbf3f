-- ===== src/Ingest/Convert/Durations.antt =====
-- About convertSpan (internal/receiver/convert.go): durations.
use apm2go.Base.{
  ℕ, ◌+◌, ◌≤◌, ◌<◌, ◌^◌, if◌then◌else◌, Bool, true, false, some_injective, Option, none, some, ◌≡◌,
  ◌↔◌, ap, sym, ◌∙◌, arith, ◌==◌,
}
use apm2go.Base.Eq.{Bytes}
use apm2go.Base.Int.{ℤ, pos, ltb_ℤ}
use apm2go.Base.Dict.{Dict}
use apm2go.Ingest.Convert.{
  OtlpSpan, ModelSpan, to_int64, duration_between, to_trace_id, to_span_id, convert_valid,
  convert_span,
}
use apm2go.Ingest.Convert.Spans.{core-convert_valid}

duration_lem :
    (start end : ℕ)
    → end < 2 ^ 64
    → (ltb_ℤ (duration_between start end) (pos 0) ≡ true) ↔ (start + 2 ^ 63 ≤ end)
unfolding duration_between to_int64
duration_lem start end h = (λ n. ground arith, λ n. ground arith)

converted_duration :
    (s : OtlpSpan) (service host : Bytes) (pid : ℤ) (resource : Dict Bytes Bytes) (span : ModelSpan)
    → convert_span s service host pid resource ≡ some span
    → span.duration ≡ duration_between s.start_time_unix_nano s.end_time_unix_nano
unfolding convert_span
converted_duration s service host pid resource span h =
    go (to_trace_id s.trace_id) (to_span_id s.span_id) (s.start_time_unix_nano == 0) h
  where
    go :
        (o p : Option Bytes) (b : Bool)
        → elim o [
          | none ↦ none
          | some t ↦ elim p [
            | none ↦ none
            | some i ↦ if b then none else some (convert_valid s t i service host pid resource)
          ]
        ]
          ≡ some span
        → span.duration ≡ duration_between s.start_time_unix_nano s.end_time_unix_nano
    go none p b e = cc
    go (some t) none b e = cc
    go (some t) (some i) true e = cc
    go (some t) (some i) false e =
        ap (λ (c : ModelSpan). c.duration) (some_injective span _ (sym e))
        ∙ ap (λ c. c.1) (core-convert_valid s t i service host pid resource)

-- For an end that is a uint64: a converted span has a negative duration exactly if its end is 2^63
-- nanoseconds or more after its start, so the clamp stops only an end before the start.
pub negative_duration_iff :
    (s : OtlpSpan) (service host : Bytes) (pid : ℤ) (resource : Dict Bytes Bytes) (span : ModelSpan)
    → s.end_time_unix_nano < 2 ^ 64
    → convert_span s service host pid resource ≡ some span
    → (ltb_ℤ span.duration (pos 0) ≡ true)
      ↔ (s.start_time_unix_nano + 2 ^ 63 ≤ s.end_time_unix_nano)
negative_duration_iff s service host pid resource span b h =
    let d = converted_duration s service host pid resource span h in
    let (to, from) = duration_lem s.start_time_unix_nano s.end_time_unix_nano b in
    (λ n. to (ap (λ z. ltb_ℤ z (pos 0)) (sym d) ∙ n), λ n. ap (λ z. ltb_ℤ z (pos 0)) d ∙ from n)

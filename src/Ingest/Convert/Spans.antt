-- ===== src/Ingest/Convert/Spans.antt =====
-- About convertSpan (internal/receiver/convert.go): one span.
use apm2go.Base.{
  ℕ, ◌<◌, ◌%◌, Bool, true, false, not, ◌||◌, if◌then◌else◌, ◌==◌, is_empty, length, Option, none,
  some, ◌≡◌, refl, ap, sym, subst, ◌∙◌, inl, inr, arith, Bool-cases, Option-cases,
}
use apm2go.Base.Eq.{Bytes}
use apm2go.Base.Int.{ℤ}
use apm2go.Base.Dict.{Dict}
use apm2go.Ingest.Convert.{
  OtlpSpan, ModelSpan, is_zero_id, to_id, to_trace_id, to_span_id, id_or_zero, apply_http,
  apply_database, apply_peer, duration_between, convert_valid, convert_span, to_int64,
}

-- The fields that the promotion of attributes leaves alone.
abbrev pub core : ModelSpan → ℤ × ℤ × Bytes × Bytes × Bytes × Bytes × ℕ
core s = (s.timestamp, s.duration, s.trace_id, s.span_id, s.parent_span_id, s.service, s.kind)

core-if :
    (b : Bool) (x y s : ModelSpan)
    → core x ≡ core s
    → core y ≡ core s
    → core (if b then x else y) ≡ core s
core-if true x y s h k = h
core-if false x y s h k = k

core-apply_http : (attrs : Dict Bytes Bytes) (s : ModelSpan) → core (apply_http attrs s) ≡ core s
unfolding apply_http
core-apply_http attrs s = core-if _ _ _ s refl refl

core-apply_database :
    (attrs : Dict Bytes Bytes) (s : ModelSpan) → core (apply_database attrs s) ≡ core s
unfolding apply_database
core-apply_database attrs s = core-if _ _ _ s refl refl

core-apply_peer : (attrs : Dict Bytes Bytes) (s : ModelSpan) → core (apply_peer attrs s) ≡ core s
unfolding apply_peer
core-apply_peer attrs s = core-if _ _ _ s refl refl

pub core-convert_valid :
    (s : OtlpSpan) (t i service host : Bytes) (pid : ℤ) (resource : Dict Bytes Bytes)
    → core (convert_valid s t i service host pid resource) ≡ (
      to_int64 s.start_time_unix_nano,
      duration_between s.start_time_unix_nano s.end_time_unix_nano,
      t,
      i,
      id_or_zero (to_span_id s.parent_span_id),
      service,
      s.kind % 256,
    )
unfolding convert_valid
core-convert_valid s t i service host pid resource =
    core-apply_peer _ _ ∙ core-apply_database _ _ ∙ core-apply_http _ _

-- What makes a span one that cannot be stored: an id of the wrong size or of zeros, or no start.
abbrev pub is_malformed : OtlpSpan → Bool
is_malformed s =
    not (length s.trace_id == 16)
    || is_zero_id s.trace_id
    || not (length s.span_id == 8)
    || is_zero_id s.span_id
    || s.start_time_unix_nano == 0

abbrev IsStorableCore : ℤ × ℤ × Bytes × Bytes × Bytes × Bytes × ℕ → Type 0
IsStorableCore (timestamp, duration, trace_id, span_id, parent_span_id, service, kind) =
    (length trace_id ≡ 16)
    × (is_zero_id trace_id ≡ false)
    × (length span_id ≡ 8)
    × (is_zero_id span_id ≡ false)
    × (length parent_span_id ≡ 8)
    × (is_empty service ≡ false)
    × (kind < 256)

-- What a stored span has: ids of the right sizes, its own and its trace's not zero, a service and a
-- kind of one byte.
abbrev pub IsStorable : ModelSpan → Type 0
IsStorable span = IsStorableCore (core span)

to_id-some :
    (n : ℕ) (b i : Bytes) → to_id n b ≡ some i → (length i ≡ n) × (is_zero_id i ≡ false) × (i ≡ b)
unfolding to_id
to_id-some n b i h = ground (arith, h)

to_id-none : (n : ℕ) (b : Bytes) → to_id n b ≡ none → (not (length b == n) || is_zero_id b) ≡ true
unfolding to_id
to_id-none n b h = ground (arith, h)

length-id_or_zero : (b : Bytes) → length (id_or_zero (to_span_id b)) ≡ 8
length-id_or_zero b = elim (Option-cases (to_span_id b)) [
  | inl e ↦ ap (λ o. length (id_or_zero o)) e
  | inr (i, e) ↦ ap (λ o. length (id_or_zero o)) e ∙ (to_id-some 8 b i e).0
]

-- What tells a span apart: the ids of its trace and its own, and its start.
abbrev pub identity : ModelSpan → Bytes × Bytes × ℤ
identity span = (span.trace_id, span.span_id, span.timestamp)

abbrev pub sent_identity : OtlpSpan → Bytes × Bytes × ℤ
sent_identity s = (s.trace_id, s.span_id, to_int64 s.start_time_unix_nano)

-- A span is converted to one that can be stored, or it is malformed.
pub data Conversion (s : OtlpSpan) (o : Option ModelSpan) : Type 0 where
  stored :
      (span : ModelSpan)
      → o ≡ some span
      → IsStorable span
      → is_malformed s ≡ false
      → identity span ≡ sent_identity s
      → Conversion s o
  skipped : o ≡ none → is_malformed s ≡ true → Conversion s o

low_byte : (k : ℕ) → k % 256 < 256
low_byte k = omega arith

pub convert_span-cases :
    (s : OtlpSpan) (service host : Bytes) (pid : ℤ) (resource : Dict Bytes Bytes)
    → is_empty service ≡ false
    → Conversion s (convert_span s service host pid resource)
unfolding convert_span
convert_span-cases s service host pid resource n = elim (Option-cases (to_trace_id s.trace_id)) [
  | inl e ↦ skipped (ap with_trace e) (ground (arith, to_id-none 16 s.trace_id e))
  | inr (t, et) ↦ elim (Option-cases (to_span_id s.span_id)) [
    | inl e ↦
        skipped (ap with_trace et ∙ ap (with_span t) e) (ground (arith, to_id-none 8 s.span_id e))
    | inr (i, ei) ↦ elim (Bool-cases (s.start_time_unix_nano == 0)) [
      | inl z ↦
          skipped (ap with_trace et ∙ ap (with_span t) ei ∙ ap (with_start t i) z)
            (ground (arith, z))
      | inr z ↦
          stored (convert_valid s t i service host pid resource)
            (ap with_trace et ∙ ap (with_span t) ei ∙ ap (with_start t i) z) (storable t i et ei)
            (well_formed t i et ei z) (identified t i et ei)
    ]
  ]
]
  where
    storable :
        (t i : Bytes)
        → to_trace_id s.trace_id ≡ some t
        → to_span_id s.span_id ≡ some i
        → IsStorable (convert_valid s t i service host pid resource)
    storable t i et ei =
        let a = to_id-some 16 s.trace_id t et in
        let b = to_id-some 8 s.span_id i ei in
        subst IsStorableCore (sym (core-convert_valid s t i service host pid resource))
          (a.0, a.1, b.0, b.1, length-id_or_zero s.parent_span_id, n, low_byte s.kind)

    identified :
        (t i : Bytes)
        → to_trace_id s.trace_id ≡ some t
        → to_span_id s.span_id ≡ some i
        → identity (convert_valid s t i service host pid resource) ≡ sent_identity s
    identified t i et ei =
        ap (λ (c : ℤ × ℤ × Bytes × Bytes × Bytes × Bytes × ℕ). (c.2, c.3, c.0))
          (core-convert_valid s t i service host pid resource)
        ∙ ap (λ x. (x, i, to_int64 s.start_time_unix_nano)) (to_id-some 16 s.trace_id t et).2
        ∙ ap (λ x. (s.trace_id, x, to_int64 s.start_time_unix_nano)) (to_id-some 8 s.span_id i ei).2

    well_formed :
        (t i : Bytes)
        → to_trace_id s.trace_id ≡ some t
        → to_span_id s.span_id ≡ some i
        → (s.start_time_unix_nano == 0) ≡ false
        → is_malformed s ≡ false
    well_formed t i et ei z =
        let a = to_id-some 16 s.trace_id t et in
        let b = to_id-some 8 s.span_id i ei in
        let la = ap length (sym a.2) ∙ a.0 in
        let lb = ap length (sym b.2) ∙ b.0 in
        let za = ap is_zero_id (sym a.2) ∙ a.1 in
        let zb = ap is_zero_id (sym b.2) ∙ b.1 in ground (arith, la, lb, za, zb, z)

    with_start : Bytes → Bytes → Bool → Option ModelSpan
    with_start t i b = if b then none else some (convert_valid s t i service host pid resource)

    with_span : Bytes → Option Bytes → Option ModelSpan
    with_span t o = elim o [ none ↦ none | some i ↦ with_start t i (s.start_time_unix_nano == 0) ]

    with_trace : Option Bytes → Option ModelSpan
    with_trace o = elim o [ none ↦ none | some t ↦ with_span t (to_span_id s.span_id) ]

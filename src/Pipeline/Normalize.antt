-- ===== src/Pipeline/Normalize.antt =====
-- internal/pipeline/pipeline.go: truncate and normalize, on the fields of a span that they touch.
use apm2go.Base.{
  ℕ, ◌-◌, ◌≤◌, ◌<◌, List, [], ◌∷◌, ◌++◌, ◌||◌, if◌then◌else◌, ltb, leb, ◌==◌, length, is_empty,
  take, length-append, length-take, All, ◌≡◌, arith, Option, none, some,
}
use apm2go.Base.Eq.{Bytes, codes}
use apm2go.Base.Dict.{Dict}
use apm2go.Pipeline.Guard.{Guard, service, operation}

pub record SpanEvent : Type 0 where
  pub attributes : Dict Bytes Bytes

pub record Span : Type 0 where
  pub service : Bytes
  pub operation : Bytes
  pub runtime : Bytes
  pub db_statement : Bytes
  pub status_message : Bytes
  pub attributes : Dict Bytes Bytes
  pub events : List SpanEvent

abbrev pub marker : Bytes
marker = codes "...[truncated]"

unfoldable pub truncate : Bytes → ℕ → Bytes
truncate s max =
    if max == 0 || leb (length s) max
    then s
    else if leb max (length marker)
    then take max s
    else take (max - length marker) s ++ marker

-- The loop over a map: a value that is too long is replaced under its key.
unfoldable pub truncate_values : ℕ → Dict Bytes Bytes → Dict Bytes Bytes
truncate_values max [] = []
truncate_values max ((k, v) ∷ m) =
    (k, if ltb max (length v) then truncate v max else v) ∷ truncate_values max m

unfoldable pub truncate_events : ℕ → List SpanEvent → List SpanEvent
truncate_events max [] = []
truncate_events max (e ∷ es) =
    record e { attributes = truncate_values max e.attributes } ∷ truncate_events max es

-- `RuntimeFor` of the resolver, where one is set.
abbrev pub Resolver : Type 0
Resolver = Option (Bytes → Bytes)

abbrev pub resolve : Resolver → Bytes → Bytes → Bytes
resolve none svc runtime = runtime
resolve (some runtime_for) svc runtime = if is_empty runtime then runtime_for svc else runtime

unfoldable pub normalize : Resolver → ℕ → Span → Guard → Guard × Span
normalize runtimes max span g =
    let (g1, svc) = service span.service g in
    let (g2, op) = operation svc span.operation g1 in
    (
      g2,
      record span {
        service = svc;
        operation = op;
        runtime = resolve runtimes svc span.runtime;
        db_statement = truncate span.db_statement max;
        status_message = truncate span.status_message max;
        attributes = truncate_values max span.attributes;
        events = truncate_events max span.events;
      },
    )

-- Under a positive limit a value that is too long is cut to exactly the limit, its marker included where
-- there is room for one, and any other is left alone.
pub length-truncate :
    (s : Bytes) (max : ℕ)
    → 0 < max
    → (length (truncate s max) ≤ max)
      × (length s ≤ max → truncate s max ≡ s)
      × (max < length s → length (truncate s max) ≡ max)
unfolding truncate
length-truncate s max p = ground (
  arith,
  length-take max s,
  length-take (max - length marker) s,
  length-append (take (max - length marker) s) marker,
)

abbrev pub Fits : ℕ → Dict Bytes Bytes → Type 0
Fits max = All (λ kv. length kv.1 ≤ max)

truncate_values-Fits : (max : ℕ) (m : Dict Bytes Bytes) → 0 < max → Fits max (truncate_values max m)
unfolding truncate_values
truncate_values-Fits max [] p = tt
truncate_values-Fits max ((k, v) ∷ m) p =
    (ground (arith, length-truncate v max p), truncate_values-Fits max m p)

truncate_events-Fits :
    (max : ℕ) (es : List SpanEvent)
    → 0 < max
    → All (λ e. Fits max e.attributes) (truncate_events max es)
unfolding truncate_events
truncate_events-Fits max [] p = tt
truncate_events-Fits max (e ∷ es) p =
    (truncate_values-Fits max e.attributes p, truncate_events-Fits max es p)

-- After normalizing under a positive limit, the statement, the status message and every attribute of
-- the span and of its events is within the limit.
pub normalize-Fits :
    (runtimes : Resolver) (max : ℕ) (span : Span) (g : Guard)
    → 0 < max
    → let s = (normalize runtimes max span g).1 in
      (length s.db_statement ≤ max)
      × (length s.status_message ≤ max)
      × Fits max s.attributes
      × All (λ e. Fits max e.attributes) s.events
unfolding normalize
normalize-Fits runtimes max span g p = (
  (length-truncate span.db_statement max p).0,
  (length-truncate span.status_message max p).0,
  truncate_values-Fits max span.attributes p,
  truncate_events-Fits max span.events p,
)

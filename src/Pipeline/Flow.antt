-- ===== src/Pipeline/Flow.antt =====
-- internal/pipeline/pipeline.go: Consume, ConsumeMetrics, Run, write and writeMetrics. `Run` and the
-- receiver's goroutines share the channels and the counters; each turn of a loop is one step. The
-- channels have buffers, since config.Validate asks for a positive queue size. A metric's other
-- fields pass through untouched and are not modelled.
pub mod Views
pub mod Conservation
pub mod Promises
pub mod Winding
pub mod Shutdown
use apm2go.Base.{
  ℕ, ◌+◌, ◌/◌, List, [], ◌∷◌, Bool, true, false, not, ◌&&◌, ◌||◌, if◌then◌else◌, leb, length,
  is_empty,
}
use apm2go.Base.Eq.{Bytes}
use apm2go.Pipeline.Limiter.{RateLimiter, new_rate_limiter, allow}
use apm2go.Pipeline.Guard.{Guard, new_cardinality_guard, service}
use apm2go.Pipeline.Normalize.{Span, Resolver, normalize}
use apm2go.Pipeline.Lane.{Lane, new_lane, has_room, send, flush, take_next}

pub record Metric : Type 0 where
  pub service : Bytes

pub record Config : Type 0 where
  pub queue_size : ℕ
  pub batch_size : ℕ
  pub max_attr_bytes : ℕ
  pub max_spans_per_second : ℕ
  pub max_services : ℕ
  pub max_operations : ℕ
  pub runtimes : Resolver

-- Where `Run` stands: in its loop, or in one of the four calls that follow the end of the context.
pub data RunPhase : Type 0 where
  looping draining_spans draining_metrics flushing_spans flushing_metrics returned : RunPhase

pub record Pipeline : Type 0 where
  pub limiter : RateLimiter
  pub guard : Guard
  pub spans : Lane Span
  pub metrics : Lane Metric
  pub queued : ℕ
  pub written : ℕ
  pub metrics_written : ℕ
  pub metrics_dropped : ℕ
  pub dropped_queue : ℕ
  pub dropped_rate : ℕ
  pub write_errors : ℕ
  pub batches : ℕ
  pub last_flush_at : ℕ
  pub last_flush_ms : ℕ
  -- `warnOnce` has run.
  pub warned : Bool
  pub phase : RunPhase

unfoldable pub new_pipeline : Config → ℕ → Pipeline
unfolding new_rate_limiter new_cardinality_guard new_lane
new_pipeline cfg now = record {
  limiter = new_rate_limiter cfg.max_spans_per_second now;
  guard = new_cardinality_guard cfg.max_services cfg.max_operations;
  spans = new_lane cfg.queue_size;
  metrics = new_lane (cfg.queue_size / 10 + 1000);
  queued = 0;
  written = 0;
  metrics_written = 0;
  metrics_dropped = 0;
  dropped_queue = 0;
  dropped_rate = 0;
  write_errors = 0;
  batches = 0;
  last_flush_at = 0;
  last_flush_ms = 0;
  warned = false;
  phase = looping;
}

-- What a turn of `Consume` meets: the time, whether the context is done, and which of two ready
-- cases `select` picks.
pub record Turn : Type 0 where
  pub now : ℕ
  pub done : Bool
  pub pick_send : Bool

-- The `select` of `Consume` after the span was admitted and normalized.
unfoldable pub offer_span : Turn → Span → Pipeline → Pipeline × Bool
offer_span t span p =
    if has_room p.spans && (not t.done || t.pick_send)
    then (record p { spans = send span p.spans; queued = p.queued + 1 }, true)
    else if t.done
    then (p, false)
    else (record p { dropped_queue = p.dropped_queue + 1; warned = true }, true)

-- One turn of the loop; `false` is the early return of the context's error.
unfoldable pub consume_span : Config → Turn → Span → Pipeline → Pipeline × Bool
unfolding offer_span
consume_span cfg t span p =
    let (limiter', ok) = allow t.now p.limiter in
    let p1 = record p { limiter = limiter' } in
    if not ok
    then (record p1 { dropped_rate = p.dropped_rate + 1 }, true)
    else (let (guard', span') = normalize cfg.runtimes cfg.max_attr_bytes span p.guard in
        offer_span t span' (record p1 { guard = guard' }))

-- `Consume`, with nothing between its turns; `false` where it returns the context's error.
unfoldable pub consume : Config → List (Turn × Span) → Pipeline → Pipeline × Bool
consume cfg [] p = (p, true)
consume cfg ((t, span) ∷ rest) p = elim (consume_span cfg t span p).1 [
  | false ↦ ((consume_span cfg t span p).0, false)
  | true ↦ consume cfg rest (consume_span cfg t span p).0
]

pub offer_metric : Turn → Metric → Pipeline → Pipeline × Bool
offer_metric t metric p =
    if has_room p.metrics && (not t.done || t.pick_send)
    then (record p { metrics = send metric p.metrics }, true)
    else if t.done
    then (p, false)
    else (record p { metrics_dropped = p.metrics_dropped + 1 }, true)

unfoldable pub consume_metric : Turn → Metric → Pipeline → Pipeline × Bool
unfolding offer_metric
consume_metric t metric p =
    let (guard', name) = service metric.service p.guard in
    offer_metric t (record metric { service = name }) (record p { guard = guard' })

-- The writer's answer to a batch: whether it took it, when, and after how many milliseconds.
pub record Write : Type 0 where
  pub ok : Bool
  pub at : ℕ
  pub took : ℕ

-- `write` of the current batch.
write : Write → Pipeline → Pipeline
write w p =
    if w.ok
    then record p {
      written = p.written + length p.spans.batch;
      batches = p.batches + 1;
      last_flush_at = w.at;
      last_flush_ms = w.took;
    }
    else record p { write_errors = p.write_errors + 1 }

unfoldable pub flush_spans : Write → Pipeline → Pipeline
unfolding write
flush_spans w p =
    if is_empty p.spans.batch
    then p
    else (let p' = write w p in record p' { spans = flush w.ok p.spans })

write_metrics : Write → Pipeline → Pipeline
write_metrics w p =
    if w.ok
    then record p { metrics_written = p.metrics_written + length p.metrics.batch }
    else record p { write_errors = p.write_errors + 1 }

unfoldable pub flush_metrics : Write → Pipeline → Pipeline
unfolding write_metrics
flush_metrics w p =
    if is_empty p.metrics.batch
    then p
    else (let p' = write_metrics w p in record p' { metrics = flush w.ok p.metrics })

unfoldable pub receive_span : Config → Write → Pipeline → Pipeline
receive_span cfg w p =
    if is_empty p.spans.queue
    then p
    else (let p' = record p { spans = take_next p.spans.queue p.spans } in
        if leb cfg.batch_size (length p'.spans.batch) then flush_spans w p' else p')

unfoldable pub receive_metric : Config → Write → Pipeline → Pipeline
receive_metric cfg w p =
    if is_empty p.metrics.queue
    then p
    else (let p' = record p { metrics = take_next p.metrics.queue p.metrics } in
        if leb cfg.batch_size (length p'.metrics.batch) then flush_metrics w p' else p')

-- The case that `select` picks in `Run`, with the writer's answers to the batches it flushes.
pub data Case : Type 0 where
  got_span got_metric : Write → Case
  ticked : Write → Write → Case
  cancelled : Case

unfoldable pub run_case : Config → Case → Pipeline → Pipeline
run_case cfg (got_span w) p = receive_span cfg w p
run_case cfg (got_metric w) p = receive_metric cfg w p
run_case cfg (ticked w v) p = flush_metrics v (flush_spans w p)
run_case cfg cancelled p = record p { phase = draining_spans }

-- One turn of the loop of `drain`, and of `drainMetrics`: a receive, or the return on an empty
-- channel. What `Consume` does between two turns is a step of its own.
unfoldable pub drain : Pipeline → Pipeline
drain p =
    if is_empty p.spans.queue
    then record p { phase = draining_metrics }
    else record p { spans = take_next p.spans.queue p.spans }

unfoldable pub drain_metrics : Pipeline → Pipeline
drain_metrics p =
    if is_empty p.metrics.queue
    then record p { phase = flushing_spans }
    else record p { metrics = take_next p.metrics.queue p.metrics }

-- The next step of `Run` once it has met the end of its context.
unfoldable pub finish : RunPhase → Write → Pipeline → Pipeline
finish looping w p = p
finish draining_spans w p = drain p
finish draining_metrics w p = drain_metrics p
finish flushing_spans w p = let p' = flush_spans w p in record p' { phase = flushing_metrics }
finish flushing_metrics w p = let p' = flush_metrics w p in record p' { phase = returned }
finish returned w p = p

abbrev pub is_looping : RunPhase → Bool
is_looping looping = true
is_looping _ = false

-- A turn of `Run`'s loop, which makes none once the context's end was met.
unfoldable pub run_turn : Config → Case → Pipeline → Pipeline
run_turn cfg c p = if is_looping p.phase then run_case cfg c p else p

pub data Action : Type 0 where
  act_span : Turn → Span → Action
  act_metric : Turn → Metric → Action
  act_run : Case → Action
  act_finish : Write → Action

unfoldable pub act : Config → Action → Pipeline → Pipeline
act cfg (act_span t span) p = (consume_span cfg t span p).0
act cfg (act_metric t metric) p = (consume_metric t metric p).0
act cfg (act_run c) p = run_turn cfg c p
act cfg (act_finish w) p = finish p.phase w p

unfoldable pub run : Config → List Action → Pipeline → Pipeline
run cfg [] p = p
run cfg (a ∷ as') p = run cfg as' (act cfg a p)

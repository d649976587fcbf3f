-- ===== src/Pipeline/Flow/Views.antt =====
-- What each operation of the pipeline does to the lanes and their counters, branch by branch.
use apm2go.Base.{
  ◌+◌, List, [], ◌∷◌, ◌++◌, Bool, true, false, if◌then◌else◌, leb, length, is_empty, length-append,
  ◌≡◌, refl, ◌⊎◌, inl, inr, arith, Bool-cases,
}
use apm2go.Pipeline.Limiter.{allow}
use apm2go.Pipeline.Normalize.{Span, normalize}
use apm2go.Pipeline.Lane.{Lane, has_room, send, flush, take_next, written}
use apm2go.Pipeline.Lane.Laws.{flush_empty, flush_full}
use apm2go.Pipeline.Flow.{
  Config, Pipeline, Metric, Turn, offer_span, consume_span, offer_metric, Write, flush_spans,
  flush_metrics, receive_span, receive_metric, drain, drain_metrics, draining_metrics,
  flushing_spans,
}

module _ {ℓ} {A : Type ℓ} where
  pub written-append :
      (cs : List (List A × Bool)) (b : List A) (ok : Bool)
      → written (cs ++ (b, ok) ∷ []) ≡ written cs + (if ok then length b else 0)
  written-append [] b true = omega arith
  written-append [] b false = refl
  written-append ((c, true) ∷ cs) b ok = omega (arith, written-append cs b ok)
  written-append ((c, false) ∷ cs) b ok = written-append cs b ok

  pub is_empty-length : (xs : List A) → is_empty xs ≡ true → length xs ≡ 0
  is_empty-length [] h = refl
  is_empty-length (x ∷ xs) h = cc

  pub is_empty-nil : (xs : List A) → is_empty xs ≡ true → xs ≡ []
  is_empty-nil [] h = refl
  is_empty-nil (x ∷ xs) h = cc

  pub written-flush :
      (ok : Bool) (l : Lane A)
      → written (flush ok l).calls ≡ written l.calls + (if ok then length l.batch else 0)
  written-flush ok l = elim (Bool-cases (is_empty l.batch)) [
    | inl h ↦ rw (flush_empty ok l h) (ground (arith, is_empty-length l.batch h))
    | inr h ↦ rw (flush_full ok l h) (written-append l.calls l.batch ok)
  ]

-- What the two flushes do to their own lane and counters, and that they leave the others alone.
pub flush_spans_view :
    (w : Write) (p : Pipeline)
    → ((flush_spans w p).spans ≡ flush w.ok p.spans)
      × ((flush_spans w p).queued ≡ p.queued)
      × ((flush_spans w p).written ≡ p.written + (if w.ok then length p.spans.batch else 0))
      × ((flush_spans w p).metrics ≡ p.metrics)
      × ((flush_spans w p).metrics_written ≡ p.metrics_written)
unfolding flush_spans flush
flush_spans_view w p = ground (arith, is_empty-length p.spans.batch)

pub flush_metrics_view :
    (w : Write) (p : Pipeline)
    → ((flush_metrics w p).metrics ≡ flush w.ok p.metrics)
      × ((flush_metrics w p).queued ≡ p.queued)
      × ((flush_metrics w p).metrics_written
          ≡ p.metrics_written + (if w.ok then length p.metrics.batch else 0))
      × ((flush_metrics w p).spans ≡ p.spans)
      × ((flush_metrics w p).written ≡ p.written)
unfolding flush_metrics flush
flush_metrics_view w p = ground (arith, is_empty-length p.metrics.batch)

-- The three ends of a receive.
pub receive_span_cases :
    (cfg : Config) (w : Write) (p : Pipeline)
    → let p' = record p { spans = take_next p.spans.queue p.spans } in
      (receive_span cfg w p ≡ p)
      ⊎ (receive_span cfg w p ≡ flush_spans w p')
      ⊎ ((receive_span cfg w p ≡ p') × (leb cfg.batch_size (length p'.spans.batch) ≡ false))
unfolding receive_span
receive_span_cases cfg w p = elim (Bool-cases (is_empty p.spans.queue)) [
  | inl h ↦ inl (rw (h, receive_span) refl)
  | inr h ↦
      elim (Bool-cases (leb cfg.batch_size (length (take_next p.spans.queue p.spans).batch))) [
        | inl full ↦ inr (inl (rw (h, receive_span) (rw (full, receive_span) refl)))
        | inr more ↦ inr (inr (rw (h, receive_span) (rw (more, receive_span) refl), more))
      ]
]

pub receive_metric_cases :
    (cfg : Config) (w : Write) (p : Pipeline)
    → let p' = record p { metrics = take_next p.metrics.queue p.metrics } in
      (receive_metric cfg w p ≡ p)
      ⊎ (receive_metric cfg w p ≡ flush_metrics w p')
      ⊎ ((receive_metric cfg w p ≡ p') × (leb cfg.batch_size (length p'.metrics.batch) ≡ false))
unfolding receive_metric
receive_metric_cases cfg w p = elim (Bool-cases (is_empty p.metrics.queue)) [
  | inl h ↦ inl (rw (h, receive_metric) refl)
  | inr h ↦
      elim (Bool-cases (leb cfg.batch_size (length (take_next p.metrics.queue p.metrics).batch))) [
        | inl full ↦ inr (inl (rw (h, receive_metric) (rw (full, receive_metric) refl)))
        | inr more ↦ inr (inr (rw (h, receive_metric) (rw (more, receive_metric) refl), more))
      ]
]

-- The two ends of a turn of a drain.
pub drain_cases :
    (p : Pipeline)
    → ((drain p ≡ record p { phase = draining_metrics }) × (p.spans.queue ≡ []))
      ⊎ ((drain p ≡ record p { spans = take_next p.spans.queue p.spans })
          × (is_empty p.spans.queue ≡ false))
unfolding drain
drain_cases p = elim (Bool-cases (is_empty p.spans.queue)) [
  | inl h ↦ inl (rw (h, drain) refl, is_empty-nil p.spans.queue h)
  | inr h ↦ inr (rw (h, drain) refl, h)
]

pub drain_metrics_cases :
    (p : Pipeline)
    → ((drain_metrics p ≡ record p { phase = flushing_spans }) × (p.metrics.queue ≡ []))
      ⊎ ((drain_metrics p ≡ record p { metrics = take_next p.metrics.queue p.metrics })
          × (is_empty p.metrics.queue ≡ false))
unfolding drain_metrics
drain_metrics_cases p = elim (Bool-cases (is_empty p.metrics.queue)) [
  | inl h ↦ inl (rw (h, drain_metrics) refl, is_empty-nil p.metrics.queue h)
  | inr h ↦ inr (rw (h, drain_metrics) refl, h)
]

pub offer_span_cases :
    (t : Turn) (span : Span) (p : Pipeline)
    → (((offer_span t span p).0 ≡ record p { spans = send span p.spans; queued = p.queued + 1 })
        × (has_room p.spans ≡ true))
      ⊎ ((offer_span t span p).0 ≡ p)
      ⊎ ((offer_span t span p).0 ≡ record p { dropped_queue = p.dropped_queue + 1; warned = true })
unfolding offer_span
offer_span_cases t span p = ground arith

pub sent-send :
    {A : Type 0} (x : A) (l : Lane A)
    → (length (send x l).sent ≡ length l.sent + 1) × ((send x l).calls ≡ l.calls)
unfolding send
sent-send x l = (omega (arith, length-append l.sent (x ∷ [])), refl)

pub consume_span_cases :
    (cfg : Config) (t : Turn) (span : Span) (p : Pipeline)
    → let (limiter', ok) = allow t.now p.limiter in
      let (guard', span') = normalize cfg.runtimes cfg.max_attr_bytes span p.guard in
      (consume_span cfg t span p
        ≡ (record p { limiter = limiter'; dropped_rate = p.dropped_rate + 1 }, true))
      ⊎ (consume_span cfg t span p
          ≡ offer_span t span' (record p { limiter = limiter'; guard = guard' }))
consume_span_cases cfg t span p = elim (Bool-cases (allow t.now p.limiter).1) [
  | inl ok ↦ inr (unfold consume_span in rw (ok, consume_span) refl)
  | inr over ↦ inl (unfold consume_span in rw (over, consume_span) refl)
]

pub offer_metric_cases :
    (t : Turn) (metric : Metric) (p : Pipeline)
    → (((offer_metric t metric p).0 ≡ record p { metrics = send metric p.metrics })
        × (has_room p.metrics ≡ true))
      ⊎ ((offer_metric t metric p).0 ≡ p)
      ⊎ ((offer_metric t metric p).0 ≡ record p { metrics_dropped = p.metrics_dropped + 1 })
unfolding offer_metric
offer_metric_cases t metric p = ground arith

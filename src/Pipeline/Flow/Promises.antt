-- ===== src/Pipeline/Flow/Promises.antt =====
-- What the pipeline promises its producers and its operator.
use apm2go.Base.{
  ℕ, ◌+◌, ◌≤◌, List, [], ◌∷◌, ◌++◌, Bool, true, false, length, ◌≡◌, refl, sym, ap, ◌∙◌, ◌⊎◌, inl,
  inr, arith, Bool-cases,
}
use apm2go.Pipeline.Normalize.{Span}
use apm2go.Pipeline.Lane.{written}
use apm2go.Pipeline.Lane.Laws.{handed}
use apm2go.Pipeline.Flow.{
  Config, Pipeline, new_pipeline, Turn, offer_span, consume_span, consume, Action, run,
}
use apm2go.Pipeline.Flow.Conservation.{Agrees-run, Agrees-new}
use apm2go.Pipeline.Flow.Views.{consume_span_cases}

-- Whatever the receiver, the writer and the clock do with a new pipeline: the spans that entered its
-- channel are, in order and each once, those handed to the writer, then the batch, then the channel,
-- which never holds more than its capacity. `queued` counts the spans that entered, `written` the
-- spans of the batches that the writer took. The same holds of the metrics and `metrics_written`.
pub pipeline_conserves :
    (cfg : Config) (now : ℕ) (xs : List Action)
    → let p = run cfg xs (new_pipeline cfg now) in
      (p.spans.sent ≡ handed p.spans.calls ++ (p.spans.batch ++ p.spans.queue))
      × (length p.spans.queue ≤ p.spans.capacity)
      × (p.queued ≡ length p.spans.sent)
      × (p.written ≡ written p.spans.calls)
      × (p.metrics.sent ≡ handed p.metrics.calls ++ (p.metrics.batch ++ p.metrics.queue))
      × (length p.metrics.queue ≤ p.metrics.capacity)
      × (p.metrics_written ≡ written p.metrics.calls)
pipeline_conserves cfg now xs =
    let a = Agrees-run cfg xs (new_pipeline cfg now) (Agrees-new cfg now) in
    (
      a.spans_faithful.in_order, a.spans_faithful.bounded, a.queued_sent, a.written_taken,
      a.metrics_faithful.in_order, a.metrics_faithful.bounded, a.metrics_taken,
    )

-- What the spans of a call amount to on the counters.
abbrev pub accounted : Pipeline → ℕ
accounted p = p.queued + (p.dropped_rate + p.dropped_queue)

offer_span-accounted :
    (t : Turn) (span : Span) (p : Pipeline)
    → (offer_span t span p).1 ≡ true
    → accounted (offer_span t span p).0 ≡ accounted p + 1
unfolding offer_span
offer_span-accounted t span p h = ground (arith, h)

consume_span-accounted :
    (cfg : Config) (t : Turn) (span : Span) (p : Pipeline)
    → (consume_span cfg t span p).1 ≡ true
    → accounted (consume_span cfg t span p).0 ≡ accounted p + 1
consume_span-accounted cfg t span p h = elim (consume_span_cases cfg t span p) [
  | inl e ↦ rw e (omega arith)
  | inr e ↦ rw e (offer_span-accounted t _ _ (ap (λ (r : Pipeline × Bool). r.1) (sym e) ∙ h))
]

consume_step :
    (cfg : Config) (t : Turn) (span : Span) (rest : List (Turn × Span)) (p : Pipeline)
    → (((consume_span cfg t span p).1 ≡ true)
        × (consume cfg ((t, span) ∷ rest) p ≡ consume cfg rest (consume_span cfg t span p).0))
      ⊎ ((consume cfg ((t, span) ∷ rest) p).1 ≡ false)
unfolding consume
consume_step cfg t span rest p = elim (Bool-cases (consume_span cfg t span p).1) [
  | inl ok ↦ inl (ok, rw (ok, consume) refl)
  | inr bad ↦ inr (rw (bad, consume) refl)
]

-- A call of `Consume` that returns no error has counted each of its spans once: as queued, as
-- dropped by the rate limiter, or as dropped by the full channel.
pub consume_accounts :
    (cfg : Config) (spans : List (Turn × Span)) (p : Pipeline)
    → (consume cfg spans p).1 ≡ true
    → accounted (consume cfg spans p).0 ≡ accounted p + length spans
consume_accounts cfg [] p h = unfold consume in omega arith
consume_accounts cfg ((t, span) ∷ rest) p h = elim (consume_step cfg t span rest p) [
  | inl (ok, e) ↦
      let ih =
        consume_accounts cfg rest (consume_span cfg t span p).0
          (ap (λ (r : Pipeline × Bool). r.1) (sym e) ∙ h) in
      ap (λ (r : Pipeline × Bool). accounted r.0) e
      ∙ omega (arith, ih, consume_span-accounted cfg t span p ok)
  | inr bad ↦ cc
]

-- ===== src/Pipeline/Flow/Conservation.antt =====
-- Counters, channels and batches agree, whatever the receiver, the writer and the clock do.
use apm2go.Base.{
  ℕ, ◌+◌, List, [], ◌∷◌, Bool, true, false, if◌then◌else◌, length, ◌/◌, ◌≡◌, refl, sym, ap, ◌∙◌,
  subst, inl, inr, arith,
}
use apm2go.Pipeline.Guard.{service}
use apm2go.Pipeline.Normalize.{Span}
use apm2go.Pipeline.Lane.{Lane, take_next, written}
use apm2go.Pipeline.Lane.Laws.{
  IsFaithful, IsFaithful-new, IsFaithful-send, IsFaithful-flush, rest-flush, IsFaithful-take,
  same-take,
}
use apm2go.Pipeline.Flow.{
  Config, Pipeline, Metric, new_pipeline, Turn, offer_span, consume_span, consume_metric, Write,
  flush_spans, flush_metrics, receive_span, receive_metric, Case, got_span, got_metric, ticked,
  cancelled, run_case, run_turn, Action, act_span, act_metric, act_run, act_finish, act, run,
  RunPhase, looping, draining_spans, draining_metrics, flushing_spans, flushing_metrics, returned,
  is_looping, finish,
}
use apm2go.Pipeline.Flow.Views.{
  flush_spans_view, flush_metrics_view, receive_span_cases, receive_metric_cases, offer_span_cases,
  offer_metric_cases, consume_span_cases, sent-send, written-flush, drain_cases,
  drain_metrics_cases,
}

-- Both lanes hold what entered them, in order, and the counters count it.
pub record Agrees (p : Pipeline) : Type 0 where
  pub spans_faithful : IsFaithful p.spans
  pub metrics_faithful : IsFaithful p.metrics
  pub queued_sent : p.queued ≡ length p.spans.sent
  pub written_taken : p.written ≡ written p.spans.calls
  pub metrics_taken : p.metrics_written ≡ written p.metrics.calls

Agrees-flush_spans : (w : Write) (p : Pipeline) → Agrees p → Agrees (flush_spans w p)
Agrees-flush_spans w p a =
    let (s, q, n, m, k) = flush_spans_view w p in
    record {
      spans_faithful = subst IsFaithful (sym s) (IsFaithful-flush w.ok p.spans a.spans_faithful);
      metrics_faithful = subst IsFaithful (sym m) a.metrics_faithful;
      queued_sent =
          q
          ∙ a.queued_sent
          ∙ ap length (sym (rest-flush w.ok p.spans).1)
          ∙ ap (λ (l : Lane Span). length l.sent) (sym s);
      written_taken =
          n
          ∙ ap (λ c. c + (if w.ok then length p.spans.batch else 0)) a.written_taken
          ∙ sym (written-flush w.ok p.spans)
          ∙ ap (λ (l : Lane Span). written l.calls) (sym s);
      metrics_taken = k ∙ a.metrics_taken ∙ ap (λ (l : Lane Metric). written l.calls) (sym m);
    }

Agrees-flush_metrics : (w : Write) (p : Pipeline) → Agrees p → Agrees (flush_metrics w p)
Agrees-flush_metrics w p a =
    let (m, q, n, s, k) = flush_metrics_view w p in
    record {
      spans_faithful = subst IsFaithful (sym s) a.spans_faithful;
      metrics_faithful =
          subst IsFaithful (sym m) (IsFaithful-flush w.ok p.metrics a.metrics_faithful);
      queued_sent = q ∙ a.queued_sent ∙ ap (λ (l : Lane Span). length l.sent) (sym s);
      written_taken = k ∙ a.written_taken ∙ ap (λ (l : Lane Span). written l.calls) (sym s);
      metrics_taken =
          n
          ∙ ap (λ c. c + (if w.ok then length p.metrics.batch else 0)) a.metrics_taken
          ∙ sym (written-flush w.ok p.metrics)
          ∙ ap (λ (l : Lane Metric). written l.calls) (sym m);
    }

Agrees-take_span :
    (p : Pipeline) → Agrees p → Agrees (record p { spans = take_next p.spans.queue p.spans })
Agrees-take_span p a =
    let t = same-take p.spans.queue p.spans in
    record {
      spans_faithful = IsFaithful-take p.spans a.spans_faithful;
      metrics_faithful = a.metrics_faithful;
      queued_sent = a.queued_sent ∙ ap length (sym t.0);
      written_taken = a.written_taken ∙ ap written (sym t.1);
      metrics_taken = a.metrics_taken;
    }

Agrees-take_metric :
    (p : Pipeline) → Agrees p → Agrees (record p { metrics = take_next p.metrics.queue p.metrics })
Agrees-take_metric p a =
    let t = same-take p.metrics.queue p.metrics in
    record {
      spans_faithful = a.spans_faithful;
      metrics_faithful = IsFaithful-take p.metrics a.metrics_faithful;
      queued_sent = a.queued_sent;
      written_taken = a.written_taken;
      metrics_taken = a.metrics_taken ∙ ap written (sym t.1);
    }

Agrees-receive_span :
    (cfg : Config) (w : Write) (p : Pipeline) → Agrees p → Agrees (receive_span cfg w p)
Agrees-receive_span cfg w p a = elim (receive_span_cases cfg w p) [
  | inl e ↦ subst Agrees (sym e) a
  | inr (inl e) ↦ subst Agrees (sym e) (Agrees-flush_spans w _ (Agrees-take_span p a))
  | inr (inr e) ↦ subst Agrees (sym e.0) (Agrees-take_span p a)
]

Agrees-receive_metric :
    (cfg : Config) (w : Write) (p : Pipeline) → Agrees p → Agrees (receive_metric cfg w p)
Agrees-receive_metric cfg w p a = elim (receive_metric_cases cfg w p) [
  | inl e ↦ subst Agrees (sym e) a
  | inr (inl e) ↦ subst Agrees (sym e) (Agrees-flush_metrics w _ (Agrees-take_metric p a))
  | inr (inr e) ↦ subst Agrees (sym e.0) (Agrees-take_metric p a)
]

Agrees-phase : (p : Pipeline) (f : RunPhase) → Agrees p → Agrees (record p { phase = f })
Agrees-phase p f a = record {
  spans_faithful = a.spans_faithful;
  metrics_faithful = a.metrics_faithful;
  queued_sent = a.queued_sent;
  written_taken = a.written_taken;
  metrics_taken = a.metrics_taken;
}

Agrees-run_case : (cfg : Config) (c : Case) (p : Pipeline) → Agrees p → Agrees (run_case cfg c p)
unfolding run_case
Agrees-run_case cfg (got_span w) p a = Agrees-receive_span cfg w p a
Agrees-run_case cfg (got_metric w) p a = Agrees-receive_metric cfg w p a
Agrees-run_case cfg (ticked w v) p a = Agrees-flush_metrics v _ (Agrees-flush_spans w p a)
Agrees-run_case cfg cancelled p a = Agrees-phase p draining_spans a

Agrees-finish : (f : RunPhase) (w : Write) (p : Pipeline) → Agrees p → Agrees (finish f w p)
unfolding finish
Agrees-finish looping w p a = a
Agrees-finish draining_spans w p a = elim (drain_cases p) [
  | inl e ↦ subst Agrees (sym e.0) (Agrees-phase p draining_metrics a)
  | inr e ↦ subst Agrees (sym e.0) (Agrees-take_span p a)
]
Agrees-finish draining_metrics w p a = elim (drain_metrics_cases p) [
  | inl e ↦ subst Agrees (sym e.0) (Agrees-phase p flushing_spans a)
  | inr e ↦ subst Agrees (sym e.0) (Agrees-take_metric p a)
]
Agrees-finish flushing_spans w p a = Agrees-phase _ flushing_metrics (Agrees-flush_spans w p a)
Agrees-finish flushing_metrics w p a = Agrees-phase _ returned (Agrees-flush_metrics w p a)
Agrees-finish returned w p a = a

-- A step that touches neither the lanes nor their counters.
Agrees-other :
    (p q : Pipeline)
    → q.spans ≡ p.spans
    → q.metrics ≡ p.metrics
    → q.queued ≡ p.queued
    → q.written ≡ p.written
    → q.metrics_written ≡ p.metrics_written
    → Agrees p
    → Agrees q
Agrees-other p q s m u w k a = record {
  spans_faithful = subst IsFaithful (sym s) a.spans_faithful;
  metrics_faithful = subst IsFaithful (sym m) a.metrics_faithful;
  queued_sent = u ∙ a.queued_sent ∙ ap (λ (l : Lane Span). length l.sent) (sym s);
  written_taken = w ∙ a.written_taken ∙ ap (λ (l : Lane Span). written l.calls) (sym s);
  metrics_taken = k ∙ a.metrics_taken ∙ ap (λ (l : Lane Metric). written l.calls) (sym m);
}

Agrees-if : (b : Bool) (p q : Pipeline) → Agrees p → Agrees q → Agrees (if b then p else q)
Agrees-if true p q a c = a
Agrees-if false p q a c = c

Agrees-run_turn : (cfg : Config) (c : Case) (p : Pipeline) → Agrees p → Agrees (run_turn cfg c p)
unfolding run_turn
Agrees-run_turn cfg c p a =
    Agrees-if (is_looping p.phase) (run_case cfg c p) p (Agrees-run_case cfg c p a) a

Agrees-offer_span :
    (t : Turn) (span : Span) (p : Pipeline) → Agrees p → Agrees (offer_span t span p).0
Agrees-offer_span t span p a = elim (offer_span_cases t span p) [
  | inl (e, room) ↦ subst Agrees (sym e) (record {
    spans_faithful = IsFaithful-send span p.spans room a.spans_faithful;
    metrics_faithful = a.metrics_faithful;
    queued_sent = omega (arith, a.queued_sent, sent-send span p.spans);
    written_taken = a.written_taken ∙ ap written (sym (sent-send span p.spans).1);
    metrics_taken = a.metrics_taken;
  })
  | inr (inl e) ↦ subst Agrees (sym e) a
  | inr (inr e) ↦ subst Agrees (sym e) (Agrees-other p _ refl refl refl refl refl a)
]

Agrees-consume_span :
    (cfg : Config) (t : Turn) (span : Span) (p : Pipeline)
    → Agrees p
    → Agrees (consume_span cfg t span p).0
Agrees-consume_span cfg t span p a = elim (consume_span_cases cfg t span p) [
  | inl e ↦
      subst Agrees (sym (ap (λ (r : Pipeline × Bool). r.0) e))
        (Agrees-other p _ refl refl refl refl refl a)
  | inr e ↦
      subst Agrees (sym (ap (λ (r : Pipeline × Bool). r.0) e))
        (Agrees-offer_span t _ _ (Agrees-other p _ refl refl refl refl refl a))
]

Agrees-consume_metric :
    (t : Turn) (metric : Metric) (p : Pipeline) → Agrees p → Agrees (consume_metric t metric p).0
unfolding consume_metric
Agrees-consume_metric t metric p a =
    let (g, name) = service metric.service p.guard in
    let p' = record p { guard = g } in
    let m' = record metric { service = name } in
    let a' : Agrees p' = Agrees-other p p' refl refl refl refl refl a in
    elim (offer_metric_cases t m' p') [
      | inl (e, room) ↦ subst Agrees (sym e) (record {
        spans_faithful = a.spans_faithful;
        metrics_faithful = IsFaithful-send m' p.metrics room a.metrics_faithful;
        queued_sent = a.queued_sent;
        written_taken = a.written_taken;
        metrics_taken = a.metrics_taken ∙ ap written (sym (sent-send m' p.metrics).1);
      })
      | inr (inl e) ↦ subst Agrees (sym e) a'
      | inr (inr e) ↦ subst Agrees (sym e) (Agrees-other p _ refl refl refl refl refl a)
    ]

pub Agrees-act : (cfg : Config) (x : Action) (p : Pipeline) → Agrees p → Agrees (act cfg x p)
unfolding act
Agrees-act cfg (act_span t span) p a = Agrees-consume_span cfg t span p a
Agrees-act cfg (act_metric t metric) p a = Agrees-consume_metric t metric p a
Agrees-act cfg (act_run c) p a = Agrees-run_turn cfg c p a
Agrees-act cfg (act_finish w) p a = Agrees-finish p.phase w p a

pub Agrees-run : (cfg : Config) (xs : List Action) (p : Pipeline) → Agrees p → Agrees (run cfg xs p)
unfolding run
Agrees-run cfg [] p a = a
Agrees-run cfg (x ∷ xs) p a = Agrees-run cfg xs (act cfg x p) (Agrees-act cfg x p a)

pub Agrees-new : (cfg : Config) (now : ℕ) → Agrees (new_pipeline cfg now)
unfolding new_pipeline
Agrees-new cfg now = record {
  spans_faithful = IsFaithful-new cfg.queue_size;
  metrics_faithful = IsFaithful-new (cfg.queue_size / 10 + 1000);
  queued_sent = refl;
  written_taken = refl;
  metrics_taken = refl;
}

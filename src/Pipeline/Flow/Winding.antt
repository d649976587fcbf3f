-- ===== src/Pipeline/Flow/Winding.antt =====
-- internal/pipeline/pipeline.go: what stays true from the end of `Run`'s context on, whatever the receiver
-- and `Run` do.
use apm2go.Base.{
  List, [], ◌∷◌, ◌++◌, Bool, false, if◌then◌else◌, is_empty, append-nil, append_assoc, ◌≡◌, refl,
  sym, ap, ◌∙◌, subst, inl, inr, Bool-cases,
}
use apm2go.Pipeline.Normalize.{Span}
use apm2go.Pipeline.Guard.{service}
use apm2go.Pipeline.Lane.{Lane, send, flush, take_next}
use apm2go.Pipeline.Lane.Laws.{
  IsFaithful, handed, handed-append, same-take, batch-flush, flush_empty, flush_full,
}
use apm2go.Pipeline.Flow.{
  Config, Pipeline, Metric, Turn, offer_span, consume_span, consume_metric, Write, RunPhase,
  looping, draining_spans, draining_metrics, flushing_spans, flushing_metrics, returned, is_looping,
  finish, run_case, run_turn, Action, act_span, act_metric, act_run, act_finish, act, run,
}
use apm2go.Pipeline.Flow.Views.{
  is_empty-nil, flush_spans_view, flush_metrics_view, offer_span_cases, offer_metric_cases,
  consume_span_cases, drain_cases, drain_metrics_cases,
}
use apm2go.Pipeline.Flow.Conservation.{Agrees, Agrees-act}

-- How far the shutdown has come with a channel.
pub data Stage : Type 0 where
  waiting drained emptied : Stage

-- What had been sent when the context's end was met comes first in what was sent, was received, or
-- was handed over.
abbrev pub Kept : {A : Type 0} → Stage → List A → Lane A → Type 0
Kept {A} waiting s l = (t : List A) × (l.sent ≡ s ++ t)
Kept {A} drained s l = (t : List A) × (handed l.calls ++ l.batch ≡ s ++ t)
Kept {A} emptied s l = (l.batch ≡ []) × ((t : List A) × (handed l.calls ≡ s ++ t))

Kept-send :
    {A : Type 0} (g : Stage) (s : List A) (a : A) (l : Lane A) → Kept g s l → Kept g s (send a l)
unfolding send
Kept-send waiting s a l (t, e) = (t ++ a ∷ [], ap (λ r. r ++ a ∷ []) e ∙ append_assoc s t (a ∷ []))
Kept-send drained s a l k = k
Kept-send emptied s a l k = k

Kept-take :
    {A : Type 0} (s : List A) (l : Lane A) → Kept waiting s l → Kept waiting s (take_next l.queue l)
Kept-take s l (t, e) = (t, (same-take l.queue l).0 ∙ e)

Kept-drained :
    {A : Type 0} (s : List A) (l : Lane A)
    → IsFaithful l
    → l.queue ≡ []
    → Kept waiting s l
    → Kept drained s l
Kept-drained s l f q (t, e) = (
  t,
  sym (f.in_order ∙ ap (λ r. handed l.calls ++ r) (ap (λ r. l.batch ++ r) q ∙ append-nil l.batch))
      ∙ e,
)

handed-flush :
    {A : Type 0} (ok : Bool) (l : Lane A) → handed (flush ok l).calls ≡ handed l.calls ++ l.batch
handed-flush ok l = elim (Bool-cases (is_empty l.batch)) [
  | inl h ↦
      ap (λ (d : Lane _). handed d.calls) (flush_empty ok l h)
      ∙ sym (ap (λ r. handed l.calls ++ r) (is_empty-nil l.batch h) ∙ append-nil (handed l.calls))
  | inr h ↦
      ap (λ (d : Lane _). handed d.calls) (flush_full ok l h)
      ∙ handed-append l.calls ((l.batch, ok) ∷ [])
      ∙ ap (λ r. handed l.calls ++ r) (append-nil l.batch)
]

Kept-flush :
    {A : Type 0} (ok : Bool) (s : List A) (l : Lane A)
    → Kept drained s l
    → Kept emptied s (flush ok l)
Kept-flush ok s l (t, e) = (batch-flush ok l, (t, handed-flush ok l ∙ e))

abbrev pub spans_stage : RunPhase → Stage
spans_stage looping = waiting
spans_stage draining_spans = waiting
spans_stage draining_metrics = drained
spans_stage flushing_spans = drained
spans_stage flushing_metrics = emptied
spans_stage returned = emptied

abbrev pub metrics_stage : RunPhase → Stage
metrics_stage looping = waiting
metrics_stage draining_spans = waiting
metrics_stage draining_metrics = waiting
metrics_stage flushing_spans = drained
metrics_stage flushing_metrics = drained
metrics_stage returned = emptied

module _ (ss : List Span) (ms : List Metric) where
  -- A pipeline whose `Run` has met the end of its context when `ss` and `ms` had been sent.
  pub record Winding (f : RunPhase) (p : Pipeline) : Type 0 where
    pub away : is_looping f ≡ false
    pub spans_kept : Kept (spans_stage f) ss p.spans
    pub metrics_kept : Kept (metrics_stage f) ms p.metrics

  abbrev pub Ends : Pipeline → Type 0
  Ends p = Winding p.phase p

  Ends-same :
      (p q : Pipeline)
      → q.phase ≡ p.phase
      → q.spans ≡ p.spans
      → q.metrics ≡ p.metrics
      → Ends p
      → Ends q
  Ends-same p q f s m w =
      subst (λ g. Winding g q) (sym f)
        (record {
          away = w.away;
          spans_kept = subst (Kept (spans_stage p.phase) ss) (sym s) w.spans_kept;
          metrics_kept = subst (Kept (metrics_stage p.phase) ms) (sym m) w.metrics_kept;
        })

  Ends-offer_span : (t : Turn) (span : Span) (p : Pipeline) → Ends p → Ends (offer_span t span p).0
  Ends-offer_span t span p w = elim (offer_span_cases t span p) [
    | inl (e, room) ↦ subst Ends (sym e) (record {
      away = w.away;
      spans_kept = Kept-send (spans_stage p.phase) ss span p.spans w.spans_kept;
      metrics_kept = w.metrics_kept;
    })
    | inr (inl e) ↦ subst Ends (sym e) w
    | inr (inr e) ↦ subst Ends (sym e) (Ends-same p _ refl refl refl w)
  ]

  Ends-consume_span :
      (cfg : Config) (t : Turn) (span : Span) (p : Pipeline)
      → Ends p
      → Ends (consume_span cfg t span p).0
  Ends-consume_span cfg t span p w = elim (consume_span_cases cfg t span p) [
    | inl e ↦
        subst Ends (sym (ap (λ (r : Pipeline × Bool). r.0) e)) (Ends-same p _ refl refl refl w)
    | inr e ↦
        subst Ends (sym (ap (λ (r : Pipeline × Bool). r.0) e))
          (Ends-offer_span t _ _ (Ends-same p _ refl refl refl w))
  ]

  Ends-consume_metric :
      (t : Turn) (metric : Metric) (p : Pipeline) → Ends p → Ends (consume_metric t metric p).0
  unfolding consume_metric
  Ends-consume_metric t metric p w =
      let (g, name) = service metric.service p.guard in
      let m' = record metric { service = name } in
      let p' : Pipeline = record p { guard = g } in
      let w' : Ends p' = Ends-same p p' refl refl refl w in
      elim (offer_metric_cases t m' p') [
        | inl (e, room) ↦ subst Ends (sym e) (record {
          away = w.away;
          spans_kept = w.spans_kept;
          metrics_kept = Kept-send (metrics_stage p.phase) ms m' p.metrics w.metrics_kept;
        })
        | inr (inl e) ↦ subst Ends (sym e) w'
        | inr (inr e) ↦ subst Ends (sym e) (Ends-same p _ refl refl refl w)
      ]

  Ends-finish :
      (f : RunPhase) (v : Write) (p : Pipeline)
      → p.phase ≡ f
      → Agrees p
      → Winding f p
      → Ends (finish f v p)
  unfolding finish
  Ends-finish looping v p e a w = cc
  Ends-finish draining_spans v p e a w = elim (drain_cases p) [
    | inl (d, q) ↦ subst Ends (sym d) (record {
      away = refl;
      spans_kept = Kept-drained ss p.spans a.spans_faithful q w.spans_kept;
      metrics_kept = w.metrics_kept;
    })
    | inr (d, more) ↦ subst Ends (sym d) (
        subst (λ g. Winding g (record p { spans = take_next p.spans.queue p.spans })) (sym e)
          (record {
            away = refl;
            spans_kept = Kept-take ss p.spans w.spans_kept;
            metrics_kept = w.metrics_kept;
          }))
  ]
  Ends-finish draining_metrics v p e a w = elim (drain_metrics_cases p) [
    | inl (d, q) ↦ subst Ends (sym d) (record {
      away = refl;
      spans_kept = w.spans_kept;
      metrics_kept = Kept-drained ms p.metrics a.metrics_faithful q w.metrics_kept;
    })
    | inr (d, more) ↦ subst Ends (sym d) (
        subst (λ g. Winding g (record p { metrics = take_next p.metrics.queue p.metrics })) (sym e)
          (record {
            away = refl;
            spans_kept = w.spans_kept;
            metrics_kept = Kept-take ms p.metrics w.metrics_kept;
          }))
  ]
  Ends-finish flushing_spans v p e a w =
      let (s, _, _, m, _) = flush_spans_view v p in
      record {
        away = refl;
        spans_kept = subst (Kept emptied ss) (sym s) (Kept-flush v.ok ss p.spans w.spans_kept);
        metrics_kept = subst (Kept drained ms) (sym m) w.metrics_kept;
      }
  Ends-finish flushing_metrics v p e a w =
      let (m, _, _, s, _) = flush_metrics_view v p in
      record {
        away = refl;
        spans_kept = subst (Kept emptied ss) (sym s) w.spans_kept;
        metrics_kept =
            subst (Kept emptied ms) (sym m) (Kept-flush v.ok ms p.metrics w.metrics_kept);
      }
  Ends-finish returned v p e a w = subst (λ g. Winding g p) (sym e) w

  Ends-act : (cfg : Config) (x : Action) (p : Pipeline) → Agrees p → Ends p → Ends (act cfg x p)
  unfolding act run_turn
  Ends-act cfg (act_span t span) p a w = Ends-consume_span cfg t span p w
  Ends-act cfg (act_metric t metric) p a w = Ends-consume_metric t metric p w
  Ends-act cfg (act_run c) p a w =
      subst Ends (sym (ap (λ b. if b then run_case cfg c p else p) w.away)) w
  Ends-act cfg (act_finish v) p a w = Ends-finish p.phase v p refl a w

  pub Ends-run :
      (cfg : Config) (xs : List Action) (p : Pipeline) → Agrees p → Ends p → Ends (run cfg xs p)
  unfolding run
  Ends-run cfg [] p a w = w
  Ends-run cfg (x ∷ xs) p a w =
      Ends-run cfg xs (act cfg x p) (Agrees-act cfg x p a) (Ends-act cfg x p a w)

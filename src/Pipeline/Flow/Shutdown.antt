-- ===== src/Pipeline/Flow/Shutdown.antt =====
-- internal/pipeline/pipeline.go: what `Run` has handed to the writer when it returns, with the
-- receiver running on while it drains and flushes.
use apm2go.Base.{
  ℕ, zero, suc, ◌+◌, ◌≤◌, length, arith, List, [], ◌∷◌, ◌++◌, false, if◌then◌else◌, is_empty,
  append-nil, ◌≡◌, refl, sym, ap, subst, inl, inr,
}
use apm2go.Pipeline.Normalize.{Span}
use apm2go.Pipeline.Lane.{Lane, take_next}
use apm2go.Pipeline.Lane.Laws.{handed}
use apm2go.Pipeline.Flow.{
  Config, Pipeline, Metric, new_pipeline, Write, RunPhase, looping, draining_spans,
  draining_metrics, flushing_spans, flushing_metrics, returned, is_looping, finish, cancelled,
  run_case, run_turn, Action, act_run, act_finish, act, run,
}
use apm2go.Pipeline.Flow.Views.{drain_cases, drain_metrics_cases}
use apm2go.Pipeline.Flow.Conservation.{Agrees-act, Agrees-run, Agrees-new}
use apm2go.Pipeline.Flow.Winding.{Winding, Ends, Ends-run}

cancelled_turn :
    (cfg : Config) (p : Pipeline)
    → p.phase ≡ looping
    → act cfg (act_run cancelled) p ≡ record p { phase = draining_spans }
unfolding act run_turn run_case
cancelled_turn cfg p h = ap (λ f. if is_looping f then record p { phase = draining_spans } else p) h

-- The steps that are left to `Run` when nothing enters the channels any more.
abbrev pub steps_left : RunPhase → Pipeline → ℕ
steps_left looping p = 0
steps_left draining_spans p = length p.spans.queue + length p.metrics.queue + 4
steps_left draining_metrics p = length p.metrics.queue + 3
steps_left flushing_spans p = 2
steps_left flushing_metrics p = 1
steps_left returned p = 0

length-take_next :
    {A : Type 0} (xs : List A) (l : Lane A)
    → is_empty xs ≡ false
    → l.queue ≡ xs
    → length (take_next xs l).queue + 1 ≡ length xs
length-take_next [] l h e = cc
length-take_next (x ∷ xs) l h e = omega arith

abbrev Nears : ℕ → Pipeline → Type 0
Nears n p = (is_looping p.phase ≡ false) × (steps_left p.phase p ≤ n)

nearer :
    (f : RunPhase) (v : Write) (p : Pipeline) (n : ℕ)
    → p.phase ≡ f
    → is_looping f ≡ false
    → steps_left f p ≤ suc n
    → Nears n (finish f v p)
unfolding finish
nearer looping v p n e a h = cc
nearer draining_spans v p n e a h = elim (drain_cases p) [
  | inl (d, q) ↦ subst (Nears n) (sym d) (refl, omega (arith, h))
  | inr (d, more) ↦
      let p' : Pipeline = record p { spans = take_next p.spans.queue p.spans } in
      subst (Nears n) (sym d) (
        subst (λ g. (is_looping g ≡ false) × (steps_left g p' ≤ n)) (sym e)
          (refl, omega (arith, h, length-take_next p.spans.queue p.spans more refl)))
]
nearer draining_metrics v p n e a h = elim (drain_metrics_cases p) [
  | inl (d, q) ↦ subst (Nears n) (sym d) (refl, omega (arith, h))
  | inr (d, more) ↦
      let p' : Pipeline = record p { metrics = take_next p.metrics.queue p.metrics } in
      subst (Nears n) (sym d) (
        subst (λ g. (is_looping g ≡ false) × (steps_left g p' ≤ n)) (sym e)
          (refl, omega (arith, h, length-take_next p.metrics.queue p.metrics more refl)))
]
nearer flushing_spans v p n e a h = (refl, omega (arith, h))
nearer flushing_metrics v p n e a h = (refl, omega arith)
nearer returned v p n e a h =
    subst (λ g. (is_looping g ≡ false) × (steps_left g p ≤ n)) (sym e) (refl, omega arith)

has_ended : (f : RunPhase) (p : Pipeline) → is_looping f ≡ false → steps_left f p ≤ 0 → f ≡ returned
has_ended looping p a h = cc
has_ended draining_spans p a h = absurd (omega (arith, h))
has_ended draining_metrics p a h = absurd (omega (arith, h))
has_ended flushing_spans p a h = absurd (omega (arith, h))
has_ended flushing_metrics p a h = absurd (omega (arith, h))
has_ended returned p a h = refl

-- Steps of `Run` with nothing in between.
abbrev pub alone : ℕ → Write → List Action
alone zero v = []
alone (suc n) v = act_finish v ∷ alone n v

alone-returned :
    (cfg : Config) (v : Write) (n : ℕ) (p : Pipeline)
    → Nears n p
    → (run cfg (alone n v) p).phase ≡ returned
unfolding run act
alone-returned cfg v zero p (a, h) = has_ended p.phase p a h
alone-returned cfg v (suc n) p (a, h) =
    alone-returned cfg v n (finish p.phase v p) (nearer p.phase v p n refl a h)

at_most :
    (f : RunPhase) (p : Pipeline)
    → steps_left f p ≤ length p.spans.queue + length p.metrics.queue + 4
at_most looping p = omega arith
at_most draining_spans p = omega arith
at_most draining_metrics p = omega arith
at_most flushing_spans p = omega arith
at_most flushing_metrics p = omega arith
at_most returned p = omega arith

-- `Run` met the end of its context in its loop; then anything else happened, the receiver running on
-- also while `Run` drained and flushed. Left alone, `Run` has returned after as many more steps as the
-- channels hold values, and four. Its batches are empty then, and every span and every metric that had
-- entered a channel when it met the context's end has been handed to the writer, in order and once,
-- before any that entered later.
pub cancelled_run_hands_all :
    (cfg : Config) (now : ℕ) (xs ys : List Action) (v : Write)
    → let p = run cfg xs (new_pipeline cfg now) in
      let q = run cfg ys (act cfg (act_run cancelled) p) in
      let r = run cfg (alone (length q.spans.queue + length q.metrics.queue + 4) v) q in
      p.phase ≡ looping
      → (r.phase ≡ returned)
        × (r.spans.batch ≡ [])
        × ((late : List Span) × (handed r.spans.calls ≡ p.spans.sent ++ late))
        × (r.metrics.batch ≡ [])
        × ((late : List Metric) × (handed r.metrics.calls ≡ p.metrics.sent ++ late))
cancelled_run_hands_all cfg now xs ys v h =
    let p = run cfg xs (new_pipeline cfg now) in
    let a = Agrees-run cfg xs (new_pipeline cfg now) (Agrees-new cfg now) in
    let d = act cfg (act_run cancelled) p in
    let b = Agrees-act cfg (act_run cancelled) p a in
    let start : Ends p.spans.sent p.metrics.sent d =
      subst (Ends p.spans.sent p.metrics.sent) (sym (cancelled_turn cfg p h)) (record {
        away = refl;
        spans_kept = ([], sym (append-nil p.spans.sent));
        metrics_kept = ([], sym (append-nil p.metrics.sent));
      }) in
    let q = run cfg ys d in
    let e = Ends-run p.spans.sent p.metrics.sent cfg ys d b start in
    let left = alone (length q.spans.queue + length q.metrics.queue + 4) v in
    let over =
      alone-returned cfg v (length q.spans.queue + length q.metrics.queue + 4) q
        (e.away, at_most q.phase q) in
    let w =
      subst (λ g. Winding p.spans.sent p.metrics.sent g (run cfg left q)) over
        (Ends-run p.spans.sent p.metrics.sent cfg left q (Agrees-run cfg ys d b) e) in
    let (s, sent) = w.spans_kept in let (m, m_sent) = w.metrics_kept in (over, s, sent, m, m_sent)

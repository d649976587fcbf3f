-- ===== src/Examples/Spans.antt =====
-- The pipeline on a few spans.
use apm2go.Base.{ℕ, List, [], ◌∷◌, ◌++◌, true, false, length, ◌+◌, ◌*◌, ◌≤◌, none, ◌≡◌, refl, arith}
use apm2go.Base.Eq.{Bytes, codes, text_eq}
use apm2go.Pipeline.Limiter.{second, new_rate_limiter, allow, admitted, refill}
use apm2go.Pipeline.Limiter.Bounds.{admitted_rate}
use apm2go.Pipeline.Guard.{
  Guard, new_cardinality_guard, operation_key, call_service, write_service, call_operation,
  run as run_guard,
}
use apm2go.Pipeline.Guard.Budget.{IsWithin, run-IsWithin}
use apm2go.Pipeline.Normalize.{Span}
use apm2go.Pipeline.Lane.{written, new_lane, send, flush}
use apm2go.Pipeline.Lane.Laws.{handed}
use apm2go.Pipeline.Flow.{
  Config, Pipeline, new_pipeline, Turn, consume_span, offer_span, consume, Write, got_span,
  cancelled, Action, act_span, act_run, act_finish, act, run, run_turn, run_case, flush_spans,
  flush_metrics, Metric, looping, returned, finish, drain, drain_metrics,
}
use apm2go.Pipeline.Flow.Promises.{pipeline_conserves}
use apm2go.Pipeline.Flow.Shutdown.{alone, cancelled_run_hands_all}

abbrev nows : List ℕ
nows = 5 ∷ 5 ∷ 1_000_000_005 ∷ []

admitted_rate_example :
    (admitted nows (new_rate_limiter 2 5)).1 * second + 5 * 2
    ≤ 2 * second + (admitted nows (new_rate_limiter 2 5)).0.last_fill * 2
admitted_rate_example =
    admitted_rate 2 5 nows (omega arith) (omega arith, (omega arith, (omega arith, tt)))

abbrev cart : Bytes
cart = codes "cart"

run-IsWithin_example : IsWithin (
    run_guard
      (call_service cart ∷ write_service (codes "pay") ∷ call_operation cart cart ∷ [])
      (new_cardinality_guard 1 1))
run-IsWithin_example =
    run-IsWithin 1 1
      (call_service cart ∷ write_service (codes "pay") ∷ call_operation cart cart ∷ [])

-- Both budgets used up.
abbrev full : Guard
full = record {
  max_services = 1;
  max_operations = 1;
  services = cart ∷ [];
  operations = operation_key cart (codes "get") ∷ [];
}

abbrev long : Span
long = record {
  service = cart;
  operation = codes "get";
  runtime = [];
  db_statement = codes "select * from carts";
  status_message = [];
  attributes = (cart, codes "select * from carts") ∷ [];
  events = record { attributes = (cart, codes "select * from carts") ∷ [] } ∷ [];
}

abbrev settings : Config
settings = record {
  queue_size = 2;
  batch_size = 2;
  max_attr_bytes = 16;
  max_spans_per_second = 3;
  max_services = 1;
  max_operations = 1;
  runtimes = none;
}

abbrev turn : Turn
turn = record { now = 7; done = false; pick_send = false }

abbrev taken : Write
taken = record { ok = true; at = 9; took = 1 }

-- Four spans for a channel of two and a limit of three, and one of them received.
abbrev busy : List Action
busy =
    act_span turn long
    ∷ act_span turn long
    ∷ act_span turn long
    ∷ act_span turn long
    ∷ act_run (got_span taken)
    ∷ []

pipeline_conserves_example :
    let p = run settings busy (new_pipeline settings 5) in
    (p.spans.sent ≡ handed p.spans.calls ++ (p.spans.batch ++ p.spans.queue))
    × (length p.spans.queue ≤ p.spans.capacity)
    × (p.queued ≡ length p.spans.sent)
    × (p.written ≡ written p.spans.calls)
    × (p.metrics.sent ≡ handed p.metrics.calls ++ (p.metrics.batch ++ p.metrics.queue))
    × (length p.metrics.queue ≤ p.metrics.capacity)
    × (p.metrics_written ≡ written p.metrics.calls)
pipeline_conserves_example = pipeline_conserves settings 5 busy

-- A span arrives while `Run` drains: the first one is in the channel at the context's end, another
-- enters once the drain has returned.
abbrev winding : List Action
winding =
    act_finish taken
    ∷ act_finish taken
    ∷ act_span turn long
    ∷ act_finish taken
    ∷ act_finish taken
    ∷ act_finish taken
    ∷ []

abbrev arrived : List Action
arrived = act_span turn long ∷ []

still_looping : (run settings arrived (new_pipeline settings 5)).phase ≡ looping
unfolding run act consume_span offer_span new_pipeline new_lane send allow refill
still_looping = refl

cancelled_run_hands_all_example :
    let p = run settings arrived (new_pipeline settings 5) in
    let q = run settings winding (act settings (act_run cancelled) p) in
    let r = run settings (alone (length q.spans.queue + length q.metrics.queue + 4) taken) q in
    (r.phase ≡ returned)
    × (r.spans.batch ≡ [])
    × ((late : List Span) × (handed r.spans.calls ≡ p.spans.sent ++ late))
    × (r.metrics.batch ≡ [])
    × ((late : List Metric) × (handed r.metrics.calls ≡ p.metrics.sent ++ late))
cancelled_run_hands_all_example =
    cancelled_run_hands_all settings 5 arrived winding taken still_looping

-- `Run` has returned after these steps, and the second span is still in the channel.
left_behind :
    let q =
      run settings winding
        (act settings (act_run cancelled) (run settings arrived (new_pipeline settings 5))) in
    (q.phase ≡ returned) × (length q.spans.queue ≡ 1)
unfolding run act run_turn run_case finish drain drain_metrics flush_spans flush_metrics
    consume_span offer_span new_pipeline new_lane send allow refill flush
left_behind = (refl, refl)

-- With no limit on the rate.
abbrev unlimited : Pipeline
unlimited = record (new_pipeline settings 5) {
  limiter = record { limit = 0; tokens = 0; last_fill = 0 };
}

two_accepted : (consume settings ((turn, long) ∷ (turn, long) ∷ []) unlimited).1 ≡ true
unfolding consume consume_span offer_span new_pipeline new_lane send allow refill
two_accepted = refl

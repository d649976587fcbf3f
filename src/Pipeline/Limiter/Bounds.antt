-- ===== src/Pipeline/Limiter/Bounds.antt =====
-- The rate that the bucket enforces, and the burst that it grants.
use apm2go.Base.{
  ℕ, ◌+◌, ◌-◌, ◌*◌, ◌≤◌, ◌<◌, List, [], ◌∷◌, Bool, true, false, length, ◌≡◌, refl, sym, ap, ◌∙◌,
  arith,
}
use native.Mathlib.Nat.{add-mul}
use apm2go.Pipeline.Limiter.{second, RateLimiter, new_rate_limiter, refill, allow, admitted}

-- The clock does not run backwards.
abbrev pub Ascending : ℕ → List ℕ → Type 0
Ascending t [] = Unit
Ascending t (now ∷ nows) = (t ≤ now) × Ascending now nows

abbrev one_if : Bool → ℕ
one_if true = 1
one_if false = 0

elapsed_mul : (a b l : ℕ) → a ≤ b → (b - a) * l + a * l ≡ b * l
elapsed_mul a b l h = sym (add-mul (b - a) a l) ∙ ap (λ (n : ℕ). n * l) (omega arith)

refill_step :
    (now : ℕ) (r : RateLimiter)
    → r.last_fill ≤ now
    → ((refill now r).tokens + r.last_fill * r.limit ≤ r.tokens + now * r.limit)
      × ((refill now r).tokens ≤ r.limit * second)
      × ((refill now r).last_fill ≡ now)
      × ((refill now r).limit ≡ r.limit)
unfolding refill
refill_step now r h = ground (arith, elapsed_mul r.last_fill now r.limit h)

allow_step :
    (now : ℕ) (r : RateLimiter)
    → 0 < r.limit
    → r.last_fill ≤ now
    → (one_if (allow now r).1 * second + (allow now r).0.tokens + r.last_fill * r.limit
        ≤ r.tokens + now * r.limit)
      × ((allow now r).0.last_fill ≡ now)
      × ((allow now r).0.limit ≡ r.limit)
unfolding allow
allow_step now r p h = ground (arith, refill_step now r h)

admitted_step :
    (nows : List ℕ) (r : RateLimiter)
    → 0 < r.limit
    → Ascending r.last_fill nows
    → (admitted nows r).1 * second + (admitted nows r).0.tokens + r.last_fill * r.limit
      ≤ r.tokens + (admitted nows r).0.last_fill * r.limit
unfolding admitted
admitted_step [] r p h = omega arith
admitted_step (now ∷ nows) r p h =
    let s = allow_step now r p h.0 in
    let (spent, filled, same) = s in
    ground (
      arith,
      s,
      admitted_step nows (allow now r).0 (rw same p) (rw filled h.1),
      ap (λ (l : ℕ). now * l) same,
      ap (λ (l : ℕ). (admitted nows (allow now r).0).0.last_fill * l) same,
      ap (λ (t : ℕ). t * (allow now r).0.limit) filled,
    )

-- Asked at times that never go back, a new limiter with a positive limit admits between its creation
-- and its last call at most one second's worth of spans more than its rate times the time that
-- passed, however the calls are spread.
pub admitted_rate :
    (limit t0 : ℕ) (nows : List ℕ)
    → 0 < limit
    → Ascending t0 nows
    → (admitted nows (new_rate_limiter limit t0)).1 * second + t0 * limit
      ≤ limit * second + (admitted nows (new_rate_limiter limit t0)).0.last_fill * limit
unfolding new_rate_limiter
admitted_rate limit t0 nows p h = omega (arith, admitted_step nows (new_rate_limiter limit t0) p h)

-- No idle time banks credit: after any call the tokens are at most one second's worth.
pub tokens_capped :
    (now : ℕ) (r : RateLimiter)
    → 0 < r.limit
    → r.last_fill ≤ now
    → (allow now r).0.tokens ≤ r.limit * second
unfolding allow
tokens_capped now r p h = ground (arith, refill_step now r h)

refill_keeps :
    (now : ℕ) (r : RateLimiter) → r.tokens ≤ r.limit * second → r.tokens ≤ (refill now r).tokens
unfolding refill
refill_keeps now r c = ground arith

allow_full :
    (now : ℕ) (r : RateLimiter)
    → 0 < r.limit
    → r.last_fill ≤ now
    → second ≤ r.tokens
    → r.tokens ≤ r.limit * second
    → ((allow now r).1 ≡ true) × (r.tokens ≤ (allow now r).0.tokens + second)
unfolding allow
allow_full now r p h b c = ground (arith, refill_keeps now r c, refill_step now r h)

burst_step :
    (nows : List ℕ) (r : RateLimiter)
    → 0 < r.limit
    → Ascending r.last_fill nows
    → length nows * second ≤ r.tokens
    → r.tokens ≤ r.limit * second
    → (admitted nows r).1 ≡ length nows
unfolding admitted
burst_step [] r p h b c = refl
burst_step (now ∷ nows) r p h b c =
    let (spent, filled, same) = allow_step now r p h.0 in
    let (ok, left) = allow_full now r p h.0 (omega arith) c in
    ground (
      arith,
      ok,
      burst_step nows (allow now r).0 (rw same p) (rw filled h.1) (omega arith)
          (rw same (tokens_capped now r p h.0)),
    )

-- The first `limit` calls of a new limiter with a positive limit, at times that never go back, are all
-- admitted.
pub initial_burst_admitted :
    (limit t0 : ℕ) (nows : List ℕ)
    → 0 < limit
    → Ascending t0 nows
    → length nows ≤ limit
    → (admitted nows (new_rate_limiter limit t0)).1 ≡ length nows
unfolding new_rate_limiter
initial_burst_admitted limit t0 nows p h b =
    burst_step nows (new_rate_limiter limit t0) p h (grind arith) (omega arith)

-- ===== src/Pipeline/Limiter.antt =====
-- internal/pipeline/limits.go: the token bucket. Tokens are floats in the source and exact here, in
-- billionths of a token, so that one nanosecond refills `limit` of them. A limit of 0 stands for every
-- limit that is not positive. Times are the monotonic clock's nanoseconds.
pub mod Bounds
use apm2go.Base.{ℕ, ◌+◌, ◌-◌, ◌*◌, List, [], ◌∷◌, Bool, true, false, if◌then◌else◌, ltb, ◌==◌}

abbrev pub second : ℕ
second = 1_000_000_000

pub record RateLimiter : Type 0 where
  pub limit : ℕ
  pub tokens : ℕ
  pub last_fill : ℕ

unfoldable pub new_rate_limiter : ℕ → ℕ → RateLimiter
new_rate_limiter per_second now = record {
  limit = per_second;
  tokens = per_second * second;
  last_fill = now;
}

-- The refill, capped at one second's worth.
unfoldable pub refill : ℕ → RateLimiter → RateLimiter
refill now r =
    let tokens' = r.tokens + (now - r.last_fill) * r.limit in
    record r {
      tokens = if ltb (r.limit * second) tokens' then r.limit * second else tokens';
      last_fill = now;
    }

unfoldable pub allow : ℕ → RateLimiter → RateLimiter × Bool
allow now r =
    if r.limit == 0
    then (r, true)
    else (let r' = refill now r in
        if ltb r'.tokens second
        then (r', false)
        else (record r' { tokens = r'.tokens - second }, true))

-- How many of the calls at these times are admitted, and the limiter after them.
unfoldable pub admitted : List ℕ → RateLimiter → RateLimiter × ℕ
admitted [] r = (r, 0)
admitted (now ∷ nows) r =
    let (r', ok) = allow now r in let (r'', n) = admitted nows r' in (r'', if ok then n + 1 else n)

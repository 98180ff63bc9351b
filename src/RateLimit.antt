-- ===== src/RateLimit.antt =====
-- golang.org/x/time/rate, which the gateway imports: its token bucket is a parameter.
use cqu_netprobe_gateway.Prelude.{ℕ, Bool}
use cqu_netprobe_gateway.Prelude.Time.{Time, Duration}
use cqu_netprobe_gateway.Float64.{Float64}

pub record RateLimiter : Type 1 where
  pub Bucket : Type 0
  -- `rate.NewLimiter(rate.Every(interval), burst)`.
  pub fresh : Duration → ℕ → Bucket
  -- `Allow` at a reading of the clock: the answer and the bucket after it.
  pub allow_at : Bucket → Time → Bool × Bucket
  -- `Tokens` at a reading of the clock.
  pub tokens_at : Bucket → Time → Float64

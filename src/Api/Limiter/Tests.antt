-- ===== src/Api/Limiter/Tests.antt =====
-- A limiter over a counting bucket, and an attack on its table.
use cqu_netprobe_gateway.Prelude.{
  ℕ, zero, suc, Bool, true, false, none, some, List, [], ◌∷◌, ◌≡◌, refl, arith,
}
use cqu_netprobe_gateway.Prelude.Text.{text_ne}
use cqu_netprobe_gateway.Prelude.Int.{pos}
use cqu_netprobe_gateway.Prelude.GoMap.{lookup}
use cqu_netprobe_gateway.Prelude.Time.{Time}
use cqu_netprobe_gateway.Float64.{of_int}
use cqu_netprobe_gateway.RateLimit.{RateLimiter}
use cqu_netprobe_gateway.Api.Limiter.{AuthFailureEntry, Limiter, new_limiter, allow}
use cqu_netprobe_gateway.Api.Limiter.Bounded.{
  Call, allow_call, remove_call, failure_call, blocked_call, run, IsWellFormed,
  limiter_run-IsWellFormed,
}
use cqu_netprobe_gateway.Api.Limiter.Flood.{run_flooded}
use cqu_netprobe_gateway.Api.Limiter.Private.{own_calls, spend, allow-run}

abbrev count_down : ℕ → Bool × ℕ
count_down zero = (false, zero)
count_down (suc n) = (true, n)

-- A bucket that never refills.
abbrev pub counting : RateLimiter
counting = record {
  Bucket = ℕ;
  fresh = λ interval burst. burst;
  allow_at = λ b at. count_down b;
  tokens_at = λ b at. of_int (pos b);
}

abbrev calls : List Call
calls =
    allow_call "p" 1
    ∷ allow_call "q" 2
    ∷ failure_call "10.0.0.9" 3 3
    ∷ allow_call "p" 4
    ∷ blocked_call "10.0.0.9" 5 5
    ∷ remove_call "q"
    ∷ []

limiter_run-IsWellFormed_example :
    IsWellFormed counting (run counting (new_limiter counting 5 3) calls)
limiter_run-IsWellFormed_example = limiter_run-IsWellFormed counting 5 3 calls

allow-run_example :
    (allow counting (run counting (new_limiter counting 5 2) calls) "p" 6).1
    ≡ (counting.allow_at (spend counting 2 (own_calls counting 2 "p" calls none)) 6).0
unfolding new_limiter lookup
allow-run_example = allow-run counting (new_limiter counting 5 2) "p" calls 6

abbrev seen : Time → AuthFailureEntry counting
seen t = record { limiter = 1; last_used = t }

abbrev tracking : Limiter counting
tracking = record {
  interval = 5;
  burst = 3;
  buckets = [];
  failures = ("10.0.0.1", seen 1) ∷ ("10.0.0.2", seen 7) ∷ [];
}

-- Three other addresses, of which one is tracked already.
abbrev flood : List Call
flood = failure_call "10.0.0.3" 8 8 ∷ failure_call "10.0.0.1" 9 9 ∷ blocked_call "10.0.0.3" 9 9 ∷ []

run_flooded_example : lookup "10.0.0.2" (run counting tracking flood).failures ≡ some (seen 7)
unfolding lookup
run_flooded_example =
    run_flooded counting tracking "10.0.0.2" (seen 7) flood
      ((text_ne "10.0.0.1" "10.0.0.2" refl, tt), (tt, tt)) refl
      (
        text_ne "10.0.0.3" "10.0.0.2" refl,
        (text_ne "10.0.0.1" "10.0.0.2" refl, (text_ne "10.0.0.3" "10.0.0.2" refl, tt)),
      )
      (omega arith)

-- ===== src/Nansen/RateLimit.antt =====
-- internal/nansen/ratelimit.go: the token buckets. One round of Wait's loop runs under the mutex and so
-- is one step; `now` is the clock that the round reads, in nanoseconds, less than 292 years after the last.
pub mod Capacity
use smart_money_falsifier.Base.{
  ℕ, suc, ◌+◌, ◌/◌, ◌%◌, Bool, true, false, Option, none, some, List, [], ◌∷◌, if◌then◌else◌, ℤ,
  pos, negsuc, ◌-ℤ◌,
}
use smart_money_falsifier.Float.{Float64}
use smart_money_falsifier.Nansen.Headers.{second}

pub record TokenBucket (W : Type 0) : Type 0 where
  pub tokens : W
  pub capacity : W
  pub rate : W
  pub last : ℤ

pub record RateLimiter (W : Type 0) : Type 0 where
  pub per_second : TokenBucket W
  pub per_minute : TokenBucket W

module _ {W : Type 0} ⦃f : Float64 W⦄ where
  unfoldable pub new_token_bucket : W → W → ℤ → TokenBucket W
  new_token_bucket rate capacity now = record {
    tokens = capacity;
    capacity = capacity;
    rate = rate;
    last = now;
  }

  -- `Duration.Seconds`
  unfoldable pub in_seconds : ℤ → W
  in_seconds (pos n) =
      f.add (f.of_nat (n / second)) (f.div (f.of_nat (n % second)) (f.of_nat second))
  in_seconds (negsuc n) =
      f.add (f.neg (f.of_nat (suc n / second)))
        (f.div (f.neg (f.of_nat (suc n % second))) (f.of_nat second))

  unfoldable pub refill : TokenBucket W → ℤ → TokenBucket W
  unfolding in_seconds
  refill b now =
      let elapsed = in_seconds (now -ℤ b.last) in
      let tokens = f.add b.tokens (f.mul elapsed b.rate) in
      if f.lt f.zero elapsed
      then record b { tokens = if f.lt b.capacity tokens then b.capacity else tokens; last = now }
      else b

  -- One round: the bucket after it, and whether it gave a token.
  unfoldable pub try_take : TokenBucket W → ℤ → TokenBucket W × Bool
  unfolding refill
  try_take b now =
      let b' = refill b now in
      if f.le f.one b'.tokens
      then (record b' { tokens = f.sub b'.tokens f.one }, true)
      else (b', false)

  -- Wait: a round at `now`, and one more for each time that the timer fires, until a token is there;
  -- the list ends where the context is cancelled.
  unfoldable pub wait : TokenBucket W → ℤ → List ℤ → TokenBucket W × Bool
  unfolding try_take
  wait b now [] = try_take b now
  wait b now (next ∷ later) =
      let (b', taken) = try_take b now in
      let rest = wait b' next later in if taken then (b', true) else rest

  unfoldable pub new_rate_limiter : ℕ → ℕ → ℤ → RateLimiter W
  unfolding new_token_bucket
  new_rate_limiter per_sec per_min now = record {
    per_second = new_token_bucket (f.of_nat per_sec) (f.of_nat per_sec) now;
    per_minute = new_token_bucket (f.div (f.of_nat per_min) (f.of_nat 60)) (f.of_nat per_min) now;
  }

  -- The limiter's Wait: the second bucket is asked only when the first gave a token.
  unfoldable pub limiter_wait : RateLimiter W → ℤ × List ℤ → ℤ × List ℤ → RateLimiter W × Bool
  unfolding wait
  limiter_wait r (now, later) (now', later') =
      let (per_second, taken) = wait r.per_second now later in
      let (per_minute, taken') = wait r.per_minute now' later' in
      if taken
      then (record { per_second = per_second; per_minute = per_minute }, taken')
      else (record { per_second = per_second; per_minute = r.per_minute }, false)

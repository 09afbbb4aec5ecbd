-- ===== src/Nansen/RateLimit/Capacity.antt =====
-- internal/nansen/ratelimit.go: a bucket never holds more than its capacity.
use smart_money_falsifier.Base.{
  ℕ, ◌≡◌, inl, inr, Bool-cases, true, false, List, [], ◌∷◌, ℤ, ◌-ℤ◌, arith,
}
use smart_money_falsifier.Float.{Float64, IsOrdered}
use smart_money_falsifier.Nansen.RateLimit.{
  TokenBucket, RateLimiter, refill, try_take, wait, new_rate_limiter, limiter_wait, in_seconds,
  new_token_bucket,
}

-- One less is not more, which holds of IEEE 754's subtraction.
abbrev pub TakesAway : (W : Type 0) ⦃f : Float64 W⦄ → Type 0
TakesAway W ⦃f⦄ = (x : W) → f.lt x (f.sub x f.one) ≡ false

-- NaN is above nothing.
abbrev pub AboveNum : (W : Type 0) ⦃f : Float64 W⦄ → Type 0
AboveNum W ⦃f⦄ = (x y : W) → f.le x y ≡ true → f.eq y y ≡ true

module _ {W : Type 0} ⦃f : Float64 W⦄ where
  abbrev pub IsBounded : TokenBucket W → Type 0
  IsBounded b = f.lt b.capacity b.tokens ≡ false

module _ {W : Type 0} ⦃f : Float64 W⦄ (laws : IsOrdered W) (less : TakesAway W)
    (above : AboveNum W) where
  refill-IsBounded : (b : TokenBucket W) (now : ℤ) → IsBounded b → IsBounded (refill b now)
  unfolding refill
  refill-IsBounded b now h = elim (Bool-cases (f.lt f.zero (in_seconds (now -ℤ b.last)))) [
    | inr t ↦ ground (arith, t, h)
    | inl t ↦
        elim (Bool-cases
          (f.lt b.capacity (f.add b.tokens (f.mul (in_seconds (now -ℤ b.last)) b.rate)))) [
            | inl u ↦ ground (arith, t, u, laws.lt_irrefl b.capacity)
            | inr u ↦ ground (arith, t, u)
          ]
  ]

  try_take-IsBounded : (b : TokenBucket W) (now : ℤ) → IsBounded b → IsBounded (try_take b now).0
  unfolding try_take
  try_take-IsBounded b now h =
      let r = refill-IsBounded b now h in
      elim (Bool-cases (f.le f.one (refill b now).tokens)) [
        | inl t ↦ rw t (
            laws.not-lt_trans (f.sub (refill b now).tokens f.one) (refill b now).tokens
              (refill b now).capacity (above f.one (refill b now).tokens t)
              (less (refill b now).tokens) r)
        | inr t ↦ rw t r
      ]

  wait-IsBounded :
      (b : TokenBucket W) (now : ℤ) (times : List ℤ) → IsBounded b → IsBounded (wait b now times).0
  unfolding wait
  wait-IsBounded b now [] h = try_take-IsBounded b now h
  wait-IsBounded b now (next ∷ later) h =
      let r = try_take-IsBounded b now h in
      elim (Bool-cases (try_take b now).1) [
        | inl t ↦ rw t r
        | inr t ↦ rw t (wait-IsBounded (try_take b now).0 next later r)
      ]

  -- With the named laws of float64: where neither bucket of a limiter holds more tokens than its
  -- capacity, neither does after a Wait, however long the limiter was idle and however the Wait ends.
  pub limiter_wait-IsBounded :
      (r : RateLimiter W) (first then_second : ℤ × List ℤ)
      → IsBounded r.per_second
      → IsBounded r.per_minute
      → IsBounded (limiter_wait r first then_second).0.per_second
        × IsBounded (limiter_wait r first then_second).0.per_minute
  unfolding limiter_wait
  limiter_wait-IsBounded r (now, later) (now', later') h k =
      let a = wait-IsBounded r.per_second now later h in
      elim (Bool-cases (wait r.per_second now later).1) [
        | inl t ↦ rw t (a, wait-IsBounded r.per_minute now' later' k)
        | inr t ↦ rw t (a, k)
      ]

module _ {W : Type 0} ⦃f : Float64 W⦄ (laws : IsOrdered W) where
  -- A limiter starts with both buckets full and no more.
  pub new_rate_limiter-IsBounded :
      (per_sec per_min : ℕ) (now : ℤ)
      → IsBounded (new_rate_limiter {W = W} per_sec per_min now).per_second
        × IsBounded (new_rate_limiter {W = W} per_sec per_min now).per_minute
  unfolding new_rate_limiter new_token_bucket
  new_rate_limiter-IsBounded per_sec per_min now = (laws.lt_irrefl _, laws.lt_irrefl _)

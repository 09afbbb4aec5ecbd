-- ===== src/Nansen/Headers/Waits.antt =====
-- internal/nansen/client.go: how long a retry waits.
use native.Mathlib.Nat.{mod-lt}
use smart_money_falsifier.Base.{
  ℕ, ◌+◌, ◌-◌, ◌*◌, ◌%◌, ◌^◌, ◌≤◌, Option, none, some, [], ◌∷◌, Str, str, ℤ, pos, negsuc, arith,
}
use smart_money_falsifier.Nansen.Headers.{
  Header, atoi, capped, seconds, max_retry_after, parse_retry_after, backoff_delay,
}

capped-le : (d : ℤ) → capped d ≤ max_retry_after
capped-le (pos n) = ground arith
capped-le (negsuc n) = ground arith

-- No header makes a worker wait longer than a minute: not a number of seconds that overflows, and not a
-- date far away.
pub parse_retry_after-le :
    (until : Str → Option ℤ) (h : Header) → parse_retry_after until h ≤ max_retry_after
unfolding parse_retry_after
parse_retry_after-le until h = by_value (h (str "Retry-After"))
  where
    by_number :
        (v : Str) (a : Option ℤ) (t : Option ℤ)
        → elim a [
          | some secs ↦ capped (seconds secs)
          | none ↦ elim t [ some d ↦ capped d | none ↦ 0 ]
        ]
          ≤ max_retry_after
    by_number v (some secs) t = capped-le (seconds secs)
    by_number v none (some d) = capped-le d
    by_number v none none = omega arith

    by_value :
        (v : Str)
        → elim v [
          | [] ↦ 0
          | c ∷ s ↦ elim (atoi (c ∷ s)) [
            | some secs ↦ capped (seconds secs)
            | none ↦ elim (until (c ∷ s)) [ some d ↦ capped d | none ↦ 0 ]
          ]
        ]
          ≤ max_retry_after
    by_value [] = omega arith
    by_value (c ∷ s) = by_number (c ∷ s) (atoi (c ∷ s)) (until (c ∷ s))

-- Without a wait from the server, a retry waits for at least 0.2 seconds, doubled for each retry before
-- it, and at most twice that.
pub backoff_delay-bounds :
    (random attempt : ℕ)
    → (2 ^ (attempt - 1) * 200_000_000 ≤ backoff_delay random attempt 0)
      × (backoff_delay random attempt 0 ≤ 2 * (2 ^ (attempt - 1) * 200_000_000))
unfolding backoff_delay
backoff_delay-bounds random attempt = bounds (2 ^ (attempt - 1) * 200_000_000)
  where
    bounds :
        (base : ℕ) → (base ≤ base + random % (base + 1)) × (base + random % (base + 1) ≤ 2 * base)
    bounds base = (omega arith, omega (arith, mod-lt random {m = base + 1} (omega arith)))

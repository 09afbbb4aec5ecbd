-- ===== src/Nansen/Budget.antt =====
-- internal/nansen/client.go, the budget guard: reserveCredits, releaseReservedCredits and
-- setCreditsRemaining, each under the client's mutex and so one step.
pub mod Guard
use smart_money_falsifier.Base.{
  ℕ, Bool, true, false, Option, none, some, if◌then◌else◌, ℤ, pos, negsuc, ltb_ℤ, ◌+ℤ◌, ◌-ℤ◌,
}

-- What the guard works on. A negative balance means that it is not known.
pub record Balance : Type 0 where
  pub credit_floor : ℤ
  pub credits_remaining : ℤ

-- The answers of reserveCredits: `(true, nil)`, `(false, nil)` and ErrBudgetFloor.
pub data Reservation : Type 0 where
  reserved unguarded refused : Reservation

unfoldable pub set_credits_remaining : Balance → ℤ → Balance
set_credits_remaining b v = record b { credits_remaining = v }

unfoldable pub reserve_credits : Balance → ℕ → Balance × Reservation
reserve_credits b cost =
    if ltb_ℤ b.credits_remaining (pos 0)
    then (b, unguarded)
    else if ltb_ℤ (b.credits_remaining -ℤ pos cost) b.credit_floor
    then (b, refused)
    else (record b { credits_remaining = b.credits_remaining -ℤ pos cost }, reserved)

unfoldable pub release_reserved_credits : Balance → ℕ → Balance
release_reserved_credits b cost = record b { credits_remaining = b.credits_remaining +ℤ pos cost }

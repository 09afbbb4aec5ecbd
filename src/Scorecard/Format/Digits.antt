-- ===== src/Scorecard/Format/Digits.antt =====
-- `%d` of package fmt against `strconv.Atoi`, the one that the client reads headers with.
use smart_money_falsifier.Base.{
  ℕ, zero, suc, ◌+◌, ◌/◌, ◌%◌, ◌^◌, ◌≤◌, ◌<◌, ◌≡◌, ap, ◌∙◌, inl, inr, Bool-cases, some, [], ◌∷◌,
  ltb, Str, pos, arith,
}
use smart_money_falsifier.Nansen.Headers.{digits, positive, atoi}
use smart_money_falsifier.Scorecard.Format.{decimal_from, decimal}

-- The digits read back as the number: the fuel is never short.
digits-decimal_from :
    (fuel n : ℕ) (acc : Str) → n < fuel → digits 0 (decimal_from fuel n acc) ≡ digits n acc
unfolding decimal_from
digits-decimal_from zero n acc h = absurd (omega (arith, h))
digits-decimal_from (suc fuel) n acc h = elim (Bool-cases (ltb n 10)) [
  | inl e ↦ ground (arith, e)
  | inr e ↦
      rw (decimal_from, e)
        (digits-decimal_from fuel (n / 10) ((b'0' + n % 10) ∷ acc) (ground arith) ∙ ground arith)
]

-- The first byte is a digit.
IsDigits : Str → Type 0
IsDigits [] = ⊥
IsDigits (c ∷ s) = (b'0' ≤ c) × (c ≤ b'9')

decimal_from-IsDigits : (fuel n : ℕ) (acc : Str) → n < fuel → IsDigits (decimal_from fuel n acc)
unfolding decimal_from IsDigits
decimal_from-IsDigits zero n acc h = absurd (omega (arith, h))
decimal_from-IsDigits (suc fuel) n acc h = elim (Bool-cases (ltb n 10)) [
  | inl e ↦ rw (decimal_from, e) (omega arith, ground arith)
  | inr e ↦
      rw (decimal_from, e)
        (decimal_from-IsDigits fuel (n / 10) ((b'0' + n % 10) ∷ acc) (ground arith))
]

atoi-digits : (s : Str) → IsDigits s → atoi s ≡ positive (digits 0 s)
unfolding atoi IsDigits
atoi-digits [] h = absurd h
atoi-digits (c ∷ s) h = ground (arith, h)

-- Every count that the table and the report print reads back as the count, up to the largest int.
pub atoi-decimal : (n : ℕ) → n < 2 ^ 63 → atoi (decimal n) ≡ some (pos n)
unfolding decimal
atoi-decimal n h =
    atoi-digits (decimal n) (decimal_from-IsDigits (suc n) n [] (omega arith))
    ∙ ap positive (digits-decimal_from (suc n) n [] (omega arith))
    ∙ ground arith

-- ===== src/Nansen/Budget/Guard.antt =====
-- The budget guard under every interleaving of workers.
use smart_money_falsifier.Base.{
  ℕ, ◌+◌, ◌≤◌, ◌≡◌, refl, sym, ap, ◌∙◌, Bool-cases, inl, inr, Bool, true, false, List, [], ◌∷◌,
  ◌++◌, if◌then◌else◌, ℤ, pos, pos_part, neg_part, ltb_ℤ, ltb_ℤ_iff, ◌+ℤ◌, ◌-ℤ◌, ◌≤ℤ◌, ◌<ℤ◌,
  +ℤ_parts, -ℤ_parts, eq_of_parts, int_laws, arith,
}
use smart_money_falsifier.Nansen.Budget.{
  Balance, Reservation, reserved, unguarded, refused, set_credits_remaining, reserve_credits,
  release_reserved_credits,
}

-- What a reservation of `cost` from `b` may answer, and the balance that it leaves.
pub data Reserves (b : Balance) (cost : ℕ) : Balance × Reservation → Type 0 where
  unknown : b.credits_remaining <ℤ pos 0 → Reserves b cost (b, unguarded)
  too_low :
      pos 0 ≤ℤ b.credits_remaining
      → b.credits_remaining <ℤ b.credit_floor +ℤ pos cost
      → Reserves b cost (b, refused)
  taken :
      (c : Balance)
      → pos 0 ≤ℤ b.credits_remaining
      → c.credit_floor ≡ b.credit_floor
      → c.credits_remaining +ℤ pos cost ≡ b.credits_remaining
      → b.credit_floor ≤ℤ c.credits_remaining
      → Reserves b cost (c, reserved)

-- Every answer of the guard is the one that the balance calls for: an unknown balance passes, a
-- known one pays in full and stays at the floor or above, and otherwise nothing changes.
pub reserve_credits-Reserves : (b : Balance) (cost : ℕ) → Reserves b cost (reserve_credits b cost)
unfolding reserve_credits
reserve_credits-Reserves b cost = elim (Bool-cases (ltb_ℤ b.credits_remaining (pos 0))) [
  | inl t ↦ rw t (unknown (ground arith))
  | inr t ↦ elim (Bool-cases (ltb_ℤ (b.credits_remaining -ℤ pos cost) b.credit_floor)) [
    | inl u ↦
        rw (t, u)
          (too_low (ground arith)
            (omega (int_laws, (ltb_ℤ_iff (b.credits_remaining -ℤ pos cost) b.credit_floor).0 u)))
    | inr u ↦
        rw (t, u)
          (taken (record b { credits_remaining = b.credits_remaining -ℤ pos cost }) (ground arith)
            refl (eq_of_parts _ _ (omega int_laws)) (ground arith))
  ]
]

-- What a successful reservation says.
pub taken_facts :
    (b : Balance) (cost : ℕ) {x : Balance × Reservation}
    → Reserves b cost x
    → x.1 ≡ reserved
    → (x.0.credit_floor ≡ b.credit_floor)
      × (x.0.credits_remaining +ℤ pos cost ≡ b.credits_remaining)
      × (b.credit_floor ≤ℤ x.0.credits_remaining)
taken_facts b cost (unknown h) e = cc
taken_facts b cost (too_low h k) e = cc
taken_facts b cost (taken c h k l m) e = (k, l, m)

-- The balance, and the costs that the calls in flight have reserved.
pub record Pool : Type 0 where
  pub balance : Balance
  pub in_flight : List ℕ

abbrev pub total : List ℕ → ℕ
total [] = 0
total (c ∷ cs) = c + total cs

-- One step of some worker that leaves the figure of the server alone: a call reserves and goes out, or fails
-- and gives back what it reserved. A response with status 200 is another step: its header sets the
-- balance, also where the response then breaks off.
pub data Quiet : Pool → Pool → Type 0 where
  goes_out :
      (p : Pool) (cost : ℕ)
      → (reserve_credits p.balance cost).1 ≡ reserved
      → Quiet p
          (record { balance = (reserve_credits p.balance cost).0; in_flight = cost ∷ p.in_flight })
  fails :
      (b : Balance) (front back : List ℕ) (cost : ℕ)
      → Quiet
          (record { balance = b; in_flight = front ++ cost ∷ back })
          (record { balance = release_reserved_credits b cost; in_flight = front ++ back })

pub data Runs (p : Pool) : Pool → Type 0 where
  start : Runs p p
  then_step : {q r : Pool} → Runs p q → Quiet q r → Runs p r

-- All the credits that are not spent: what is left and what is reserved.
abbrev pub held : Pool → ℤ
held p = p.balance.credits_remaining +ℤ pos (total p.in_flight)

total-middle :
    (front back : List ℕ) (cost : ℕ) → total (front ++ cost ∷ back) ≡ cost + total (front ++ back)
total-middle [] back cost = refl
total-middle (x ∷ front) back cost = omega (arith, total-middle front back cost)

Quiet-held : {p q : Pool} → Quiet p q → held q ≡ held p
unfolding release_reserved_credits
Quiet-held (goes_out p cost ok) =
    let (_, paid, _) = taken_facts p.balance cost (reserve_credits-Reserves p.balance cost) ok in
    eq_of_parts _ _ (
      omega (
        int_laws,
        ap pos_part paid,
        ap neg_part paid,
        +ℤ_parts (reserve_credits p.balance cost).0.credits_remaining (pos cost),
      ))
Quiet-held (fails b front back cost) =
    eq_of_parts _ _ (omega (int_laws, total-middle front back cost))

abbrev IsFunded : Pool → Type 0
IsFunded p = p.balance.credit_floor ≤ℤ p.balance.credits_remaining

Quiet-IsFunded : {p q : Pool} → Quiet p q → IsFunded p → IsFunded q
unfolding release_reserved_credits
Quiet-IsFunded (goes_out p cost ok) h =
    let (same, paid, above) =
      taken_facts p.balance cost (reserve_credits-Reserves p.balance cost) ok in
    omega (arith, ap pos_part same, ap neg_part same)
Quiet-IsFunded (fails b front back cost) h = omega int_laws

-- From a balance at the floor or above, however the workers' calls interleave, as long as no response with
-- status 200 comes in, not even one that breaks off: no credit is lost or made up, what is left and what is reserved adding up to what there was, and the
-- balance stays at the floor or above.
pub Runs-funded :
    {p q : Pool}
    → Runs p q
    → p.balance.credit_floor ≤ℤ p.balance.credits_remaining
    → (held q ≡ held p) × (q.balance.credit_floor ≤ℤ q.balance.credits_remaining)
Runs-funded start h = (refl, h)
Runs-funded (then_step r st) h =
    let (e, k) = Runs-funded r h in (Quiet-held st ∙ e, Quiet-IsFunded st k)

-- Two workers reserve; the second's response tells the balance `header`; the first's call fails.
abbrev pub overlapped : Balance → ℕ → ℕ → ℤ → Balance
overlapped b first second header =
    let both_out = (reserve_credits (reserve_credits b first).0 second).0 in
    release_reserved_credits (set_credits_remaining both_out header) first

pub reserve_refuses :
    (b : Balance) (cost : ℕ)
    → pos 0 ≤ℤ b.credits_remaining
    → b.credits_remaining <ℤ b.credit_floor +ℤ pos cost
    → (reserve_credits b cost).1 ≡ refused
unfolding reserve_credits
reserve_refuses b cost known short =
    ground (arith, -ℤ_parts b.credits_remaining (pos cost), +ℤ_parts b.credit_floor (pos cost))

reserve_passes :
    (b : Balance) (cost : ℕ)
    → pos 0 ≤ℤ b.credits_remaining
    → b.credit_floor +ℤ pos cost ≤ℤ b.credits_remaining
    → (reserve_credits b cost).1 ≡ reserved
unfolding reserve_credits
reserve_passes b cost known enough =
    ground (arith, -ℤ_parts b.credits_remaining (pos cost), +ℤ_parts b.credit_floor (pos cost))

reserve-floor : (b : Balance) (cost : ℕ) → (reserve_credits b cost).0.credit_floor ≡ b.credit_floor
unfolding reserve_credits
reserve-floor b cost = ground arith

overlapped-floor :
    (b : Balance) (first second : ℕ) (header : ℤ)
    → (overlapped b first second header).credit_floor ≡ b.credit_floor
unfolding release_reserved_credits set_credits_remaining
overlapped-floor b first second header =
    reserve-floor (reserve_credits b first).0 second ∙ reserve-floor b first

overlapped-remaining :
    (b : Balance) (first second : ℕ) (header : ℤ)
    → (overlapped b first second header).credits_remaining ≡ header +ℤ pos first
unfolding release_reserved_credits set_credits_remaining
overlapped-remaining b first second header = refl

-- Two calls are out, the second is answered with `header` credits, and then the first fails. Where
-- `header` is at the floor or above but does not pay for a call that costs at most what the first
-- reserved, the guard lets that call out, though it refuses it at the balance that the server told.
pub overlapped-breaches :
    (b : Balance) (first second cost : ℕ) (header : ℤ)
    → pos 0 ≤ℤ header
    → b.credit_floor ≤ℤ header
    → header <ℤ b.credit_floor +ℤ pos cost
    → cost ≤ first
    → ((reserve_credits (set_credits_remaining b header) cost).1 ≡ refused)
      × ((reserve_credits (overlapped b first second header) cost).1 ≡ reserved)
unfolding set_credits_remaining
overlapped-breaches b first second cost header nonneg funded short enough =
    let after = overlapped b first second header in
    (
      reserve_refuses (set_credits_remaining b header) cost nonneg short,
      reserve_passes after cost (rw (overlapped-remaining b first second header) (omega int_laws)) (
          rw (overlapped-remaining b first second header, overlapped-floor b first second header)
            (omega int_laws)),
    )

unguarded_facts :
    (b : Balance) (cost : ℕ) (x : Balance × Reservation)
    → Reserves b cost x
    → x.1 ≡ unguarded
    → (x.0 ≡ b) × (b.credits_remaining <ℤ pos 0)
unguarded_facts b cost _ (unknown h) e = (refl, h)
unguarded_facts b cost _ (too_low h k) e = cc
unguarded_facts b cost _ (taken c h k l m) e = cc

Balance_eq :
    {b : Balance} {f r : ℤ}
    → f ≡ b.credit_floor
    → r ≡ b.credits_remaining
    → record { credit_floor = f; credits_remaining = r } ≡ b
Balance_eq p q = ground (arith, p, q)

-- The answer of a reservation that lets a call out, and what is given back when the call fails.
pub refunded :
    (b c : Balance) (cost : ℕ) (holds : Bool)
    → reserve_credits b cost ≡ (c, if holds then reserved else unguarded)
    → (if holds then release_reserved_credits c cost else c) ≡ b
unfolding release_reserved_credits
refunded b c cost true took =
    let (floor, paid, above) =
      taken_facts b cost (reserve_credits-Reserves b cost) (ap (λ x. x.1) took) in
    ap {A = Balance} (λ d. record d { credits_remaining = d.credits_remaining +ℤ pos cost })
      (sym (ap (λ x. x.0) took))
    ∙ Balance_eq floor paid
refunded b c cost false took =
    let (same, low) =
      unguarded_facts b cost _ (reserve_credits-Reserves b cost) (ap (λ x. x.1) took) in
    sym (ap (λ x. x.0) took) ∙ same

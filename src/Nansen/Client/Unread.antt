-- ===== src/Nansen/Client/Unread.antt =====
-- internal/nansen/client.go: a call whose 200 responses cannot be read to the end.
use mathlib.Core.Option.{some-injective}
use smart_money_falsifier.Base.{
  lookup, str_key, ◌<◌, ℕ, zero, suc, ◌+◌, ◌≤◌, ◌≡◌, refl, sym, subst, ap, ◌∙◌, Bool, true, false,
  ◌&&◌, none, some, ◌∷◌, ◌==◌, ltb, Str, str, ℤ, pos, ◌+ℤ◌, arith,
}
use smart_money_falsifier.Nansen.Endpoints.{credit_cost}
use smart_money_falsifier.Nansen.Headers.{atoi}
use smart_money_falsifier.Nansen.Budget.{
  reserve_credits, reserved, set_credits_remaining, release_reserved_credits,
}
use smart_money_falsifier.Nansen.Client.{
  World, Client, Call, CallLogEntry, Error, Response, responds, again, lost, read_failed, observe,
  answer, judge, round, attempts, do_http, live, give_back, entry_of, zero_entry, no_error,
  exhausted, Outcome, do_call,
}
use smart_money_falsifier.Nansen.Client.Attempts.{attempts_again}
use smart_money_falsifier.Nansen.Client.Ways.{
  Misses, stays_offline, costly, poor, goes, Calls, unkeyed, cached, uncached, do_call-Calls,
}
use smart_money_falsifier.Nansen.Client.Steps.{log_attempt-same}

-- From `clock` on no wait is cut short, and the server answers each request with a 200 that tells `n`
-- credits and whose body breaks off.
pub record BreaksOff (w : World) (clock : ℕ) (r : Response) (n : ℤ) (x : ℕ) (v : Str) : Type 0 where
  pub no_cut :
      (k : ℕ) → clock ≤ k → (w.backoff_cancelled k ≡ false) × (w.limiter_cancelled k ≡ false)
  pub same_reply : (k : ℕ) → clock ≤ k → w.reply k ≡ responds r
  pub ok : (r.status_code == 200) ≡ true
  pub unread : r.read_fails ≡ true
  pub told : r.header (str "X-Nansen-Credits-Remaining") ≡ x ∷ v
  pub number : atoi (x ∷ v) ≡ some n

and_false : (a b : Bool) → b ≡ false → (a && b) ≡ false
and_false a b h = ground (arith, h)

module _ (w : World) (path : Str) (cost : ℕ) (r : Response) (n : ℤ) (x : ℕ) (v : Str) where
  broken_judge :
      (clock : ℕ)
      → BreaksOff w clock r n x v
      → judge w path cost r ≡ again (entry_of w path cost r) read_failed
  unfolding judge
  broken_judge clock h = rw h.unread refl

  broken_observe :
      (clock : ℕ) (c : Client)
      → BreaksOff w clock r n x v
      → (observe c.balance r).credits_remaining ≡ n
  unfolding observe set_credits_remaining
  broken_observe clock c h = rw (h.ok, h.told, h.number) refl

  broken_round :
      (attempt : ℕ) (last : CallLogEntry) (c : Client)
      → BreaksOff w c.clock r n x v
      → ((round w path cost attempt last c).1 ≡ again (entry_of w path cost r) read_failed)
        × ((round w path cost attempt last c).0.clock ≡ c.clock + 1)
        × ((round w path cost attempt last c).0.balance.credits_remaining ≡ n)
  unfolding round answer
  broken_round attempt last c h =
      let (never, free) = h.no_cut c.clock (omega arith) in
      rw
        (
          and_false (ltb 0 attempt) (w.backoff_cancelled c.clock) never,
          free,
          h.same_reply c.clock (omega arith),
        )
        (broken_judge c.clock h, refl, broken_observe c.clock c h)

  goes_on : (m k : ℕ) → m ≤ k → BreaksOff w m r n x v → BreaksOff w k r n x v
  goes_on m k le h = record {
    no_cut = λ j at. h.no_cut j (omega (arith, le, at));
    same_reply = λ j at. h.same_reply j (omega (arith, le, at));
    ok = h.ok;
    unread = h.unread;
    told = h.told;
    number = h.number;
  }

  broken_attempts :
      (left attempt : ℕ) (last : CallLogEntry) (e : Error) (c : Client)
      → BreaksOff w c.clock r n x v
      → c.balance.credits_remaining ≡ n
      → ((attempts w path cost left attempt last e c).0.balance.credits_remaining ≡ n)
        × ((e' : Error) × ((attempts w path cost left attempt last e c).2 ≡ lost e'))
  unfolding attempts
  broken_attempts zero attempt last e c h now = (now, (exhausted e, refl))
  broken_attempts (suc left) attempt last e c h now =
      let (outcome, clock, told) = broken_round attempt last c h in
      rw
        (attempts_again w path cost left attempt last (entry_of w path cost r) e read_failed c
          outcome)
        (broken_attempts left (attempt + 1) (entry_of w path cost r) read_failed
          (round w path cost attempt last c).0 (goes_on c.clock _ (omega (arith, clock)) h) told)

module _ {Out : Type 0} (w : World) (call : Call Out) (r : Response) (n : ℤ) (x : ℕ) (v : Str) where
  broken_http :
      (cost : ℕ) (c : Client)
      → BreaksOff w c.clock r n x v
      → ((do_http w call.path cost c).0.balance.credits_remaining ≡ n)
        × ((e' : Error) × ((do_http w call.path cost c).2 ≡ lost e'))
  unfolding do_http
  broken_http cost c h =
      let (outcome, clock, told) = broken_round w call.path cost r n x v 0 zero_entry c h in
      let more : suc c.max_retries ≡ c.max_retries + 1 = omega arith in
      subst
        (λ k.
          ((attempts w call.path cost k 0 zero_entry no_error c).0.balance.credits_remaining ≡ n)
          × ((e' : Error) × ((attempts w call.path cost k 0 zero_entry no_error c).2 ≡ lost e')))
        more
        (rw
          (attempts_again w call.path cost c.max_retries 0 zero_entry (entry_of w call.path cost r)
            no_error read_failed c outcome)
          (broken_attempts w call.path cost r n x v c.max_retries 1 (entry_of w call.path cost r)
            read_failed (round w call.path cost 0 zero_entry c).0
            (goes_on w call.path cost r n x v c.clock _ (omega (arith, clock)) h) told))

  broken_live :
      (key : Str) (c : Client)
      → BreaksOff w c.clock r n x v
      → (live w call key true c).0.balance.credits_remaining ≡ n +ℤ pos (credit_cost call.path)
  unfolding live give_back release_reserved_credits
  broken_live key c h =
      let cost = credit_cost call.path in
      let (told, (e, q)) = broken_http cost c h in
      let (stored, sent, kept) =
        log_attempt-same (do_http w call.path cost c).0 (do_http w call.path cost c).1 in
      rw (live, q) (ap (λ b. b.credits_remaining +ℤ pos cost) kept ∙ ap (λ m. m +ℤ pos cost) told)

  Misses-unread :
      {key : Str} {c : Client} {y : Client × Outcome Out}
      → Misses w call key c y
      → c.offline ≡ false
      → (1 < credit_cost call.path → c.allow_expensive ≡ true)
      → (reserve_credits c.balance (credit_cost call.path)).1 ≡ reserved
      → BreaksOff w c.clock r n x v
      → y.0.balance.credits_remaining ≡ n +ℤ pos (credit_cost call.path)
  Misses-unread (stays_offline off) on fine paid h = absurd (ground (arith, off, on))
  Misses-unread (costly on' dear no_leave) on fine paid h =
      absurd (ground (arith, fine dear, no_leave))
  Misses-unread (poor on' short) on fine paid h = absurd (ground (arith, short, paid))
  Misses-unread {key} {c} (goes true b on' fine' took) on fine paid h =
      broken_live key (record c { balance = b }) h
  Misses-unread {key} {c} (goes false b on' fine' took) on fine paid h =
      absurd (ground (arith, ap (λ t. t.1) took, paid))

  Calls-unread :
      {c : Client} {y : Client × Outcome Out} (key : Str)
      → Calls w call c y
      → call.key ≡ some key
      → lookup key c.cache ≡ none
      → c.offline ≡ false
      → (1 < credit_cost call.path → c.allow_expensive ≡ true)
      → (reserve_credits c.balance (credit_cost call.path)).1 ≡ reserved
      → BreaksOff w c.clock r n x v
      → y.0.balance.credits_remaining ≡ n +ℤ pos (credit_cost call.path)
  Calls-unread key (unkeyed q) keyed missing on fine paid h = absurd (ground (arith, q, keyed))
  Calls-unread {c} key (cached key' raw q m) keyed missing on fine paid h = absurd (
      ground (
        arith,
        sym missing ∙ ap (λ k. lookup k c.cache) (some-injective key key' (sym keyed ∙ q)) ∙ m,
      ))
  Calls-unread key (uncached key' y q m ways) keyed missing on fine paid h =
      Misses-unread ways on fine paid h

  -- A call that is not in the cache, from a client that is online and may make it, and for which the
  -- guard reserves: where every response is a 200 that tells `n` credits and cannot be read to the end,
  -- the balance ends at `n` plus the price of the call, which the server has already taken off.
  pub do_call-unread :
      (c : Client) (key : Str)
      → call.key ≡ some key
      → lookup key c.cache ≡ none
      → c.offline ≡ false
      → (1 < credit_cost call.path → c.allow_expensive ≡ true)
      → (reserve_credits c.balance (credit_cost call.path)).1 ≡ reserved
      → BreaksOff w c.clock r n x v
      → (do_call w call c).0.balance.credits_remaining ≡ n +ℤ pos (credit_cost call.path)
  do_call-unread c key = Calls-unread key (do_call-Calls w call c)

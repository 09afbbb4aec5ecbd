-- ===== src/Nansen/Client/Calls.antt =====
-- internal/nansen/client.go: what Do sends, stores and pays, on every way through it.
use mathlib.Core.Option.{some-injective}
use smart_money_falsifier.Base.{
  ◌+◌, ◌≤◌, ◌<◌, ◌≡◌, ◌⊎◌, refl, sym, subst, ap, ◌∙◌, inl, inr, Bool, true, false, Option, none,
  some, if◌then◌else◌, Bool-cases, Option-cases, Str, str_key, lookup, lookup-insert, beq_refl, pos,
  arith, ◌≤ℤ◌, ◌+ℤ◌, ltb_ℤ, ltb_ℤ_iff,
}
use smart_money_falsifier.Nansen.Endpoints.{credit_cost}
use smart_money_falsifier.Nansen.Budget.{Balance, reserved, unguarded, refused, reserve_credits}
use smart_money_falsifier.Nansen.Budget.Guard.{reserve_refuses, refunded}
use smart_money_falsifier.Nansen.Client.{
  World, Client, Call, Outcome, done, failed, live, hit, do_call, give_back, offline_miss,
}
use smart_money_falsifier.Nansen.Client.Attempts.{NeverOk}
use smart_money_falsifier.Nansen.Client.Steps.{
  hit-same, IsCached, live-sent, live-IsCached, live-balance, log_attempt-same,
}
use smart_money_falsifier.Nansen.Client.Ways.{
  Misses, stays_offline, costly, poor, goes, Calls, unkeyed, cached, uncached, do_call-Calls,
}

answers : (holds : Bool) → refused ≡ (if holds then reserved else unguarded) → ⊥
answers true e = ground (arith, e)
answers false e = ground (arith, e)

keys_same : {A : Type 0} {o : Option A} {a b : A} → o ≡ some a → o ≡ some b → a ≡ b
keys_same {a} {b} p q = some-injective a b (sym p ∙ q)

not_both : {A : Type 0} {a : A} → none ≡ some a → ⊥
not_both e = ground (arith, e)

module _ {Out : Type 0} (w : World) (call : Call Out) where
  Misses-sent :
      {key : Str} {c : Client} {x : Client × Outcome Out}
      → Misses w call key c x
      → x.0.sent ≤ c.sent + (c.max_retries + 1)
  Misses-sent (stays_offline off) = omega arith
  Misses-sent (costly on dear no_leave) = omega arith
  Misses-sent (poor on short) = omega arith
  Misses-sent {key} {c} (goes holds b on fine took) =
      live-sent w call key holds (record c { balance = b })

  Calls-sent :
      {c : Client} {x : Client × Outcome Out}
      → Calls w call c x
      → x.0.sent ≤ c.sent + (c.max_retries + 1)
  Calls-sent (unkeyed q) = omega arith
  Calls-sent {c} (cached key raw q m) = omega (arith, (hit-same w call raw c).1)
  Calls-sent (uncached key x q m h) = Misses-sent h

  -- One call sends at most one request more than the retries that the client is set to, on every
  -- way through it.
  pub do_call-sent : (c : Client) → (do_call w call c).0.sent ≤ c.sent + (c.max_retries + 1)
  do_call-sent c = Calls-sent (do_call-Calls w call c)

  Misses-IsCached :
      {key : Str} {c : Client} {x : Client × Outcome Out}
      → Misses w call key c x
      → IsCached w call key c x.0 x.1
  unfolding IsCached
  Misses-IsCached (stays_offline off) = refl
  Misses-IsCached (costly on dear no_leave) = refl
  Misses-IsCached (poor on short) = refl
  Misses-IsCached {key} {c} (goes holds b on fine took) =
      live-IsCached w call key holds (record c { balance = b })

  hit-IsCached :
      (key raw : Str) (c : Client) → IsCached w call key c (hit call raw c).0 (hit call raw c).1
  unfolding IsCached hit
  hit-IsCached key raw c = elim (Option-cases (call.decode raw)) [
    | inl q ↦ rw (hit, q) refl
    | inr (out, q) ↦ rw (hit, q) (log_attempt-same c _).0
  ]

  Calls-IsCached :
      {c : Client} {x : Client × Outcome Out} (key : Str)
      → call.key ≡ some key
      → Calls w call c x
      → IsCached w call key c x.0 x.1
  unfolding IsCached
  Calls-IsCached key keyed (unkeyed q) = refl
  Calls-IsCached {c} key keyed (cached key' raw q m) = hit-IsCached key raw c
  Calls-IsCached {c} {x} key keyed (uncached key' y q m h) =
      subst (λ k. IsCached w call k c x.0 x.1) (ground (arith, q, keyed)) (Misses-IsCached h)

  -- What a call does to the cache: it adds an entry only where it answers from the network, and that
  -- entry is, under the call's key, the body of a 200 which the world gave after the call began and
  -- which decodes to the answer. A call that fails, or that answers from the cache, leaves it alone.
  pub do_call-IsCached :
      (c : Client) (key : Str)
      → call.key ≡ some key
      → IsCached w call key c (do_call w call c).0 (do_call w call c).1
  do_call-IsCached c key keyed = Calls-IsCached key keyed (do_call-Calls w call c)

  -- When a request may go out.
  pub record IsAllowed (c : Client) : Type 0 where
    pub online : c.offline ≡ false
    pub cheap_or_allowed : 1 < credit_cost call.path → c.allow_expensive ≡ true
    pub funded :
        pos 0 ≤ℤ c.balance.credits_remaining
        → c.balance.credit_floor +ℤ pos (credit_cost call.path) ≤ℤ c.balance.credits_remaining

  goes_funded :
      (c : Client) (holds : Bool) (b : Balance)
      → reserve_credits c.balance (credit_cost call.path)
        ≡ (b, if holds then reserved else unguarded)
      → pos 0 ≤ℤ c.balance.credits_remaining
      → c.balance.credit_floor +ℤ pos (credit_cost call.path) ≤ℤ c.balance.credits_remaining
  goes_funded c holds b took known =
      elim (Bool-cases (
        ltb_ℤ c.balance.credits_remaining
          (c.balance.credit_floor +ℤ pos (credit_cost call.path)))) [
            | inl short ↦ absurd (
                answers holds (
                  sym (
                    reserve_refuses c.balance (credit_cost call.path) known (
                      (ltb_ℤ_iff c.balance.credits_remaining
                          (c.balance.credit_floor +ℤ pos (credit_cost call.path))).0
                        short))
                  ∙ ap (λ x. x.1) took))
            | inr enough ↦ ground (arith, enough)
          ]

  Misses-IsAllowed :
      {key : Str} {c : Client} {x : Client × Outcome Out}
      → Misses w call key c x
      → c.sent < x.0.sent
      → IsAllowed c
  Misses-IsAllowed (stays_offline off) more = absurd (omega arith)
  Misses-IsAllowed (costly on dear no_leave) more = absurd (omega arith)
  Misses-IsAllowed (poor on short) more = absurd (omega arith)
  Misses-IsAllowed {key} {c} (goes holds b on fine took) more = record {
    online = on;
    cheap_or_allowed = fine;
    funded = goes_funded c holds b took;
  }

  Calls-IsAllowed :
      {c : Client} {x : Client × Outcome Out}
      → Calls w call c x
      → c.sent < x.0.sent
      → IsAllowed c × ((key : Str) × (call.key ≡ some key) × (lookup key c.cache ≡ none))
  Calls-IsAllowed (unkeyed q) more = absurd (omega arith)
  Calls-IsAllowed {c} (cached key raw q m) more = absurd (omega (arith, (hit-same w call raw c).1))
  Calls-IsAllowed (uncached key x q m h) more = (Misses-IsAllowed h more, (key, q, m))

  -- A request goes out only for a call that is not in the cache, from a client that is online, that
  -- may make expensive calls if this is one, and whose balance, where it is known, pays for the call
  -- and stays at the floor or above.
  pub do_call-IsAllowed :
      (c : Client)
      → c.sent < (do_call w call c).0.sent
      → IsAllowed c × ((key : Str) × (call.key ≡ some key) × (lookup key c.cache ≡ none))
  do_call-IsAllowed c = Calls-IsAllowed (do_call-Calls w call c)

  goes_refund :
      (key : Str) (c : Client) (holds : Bool) (b : Balance)
      → reserve_credits c.balance (credit_cost call.path)
        ≡ (b, if holds then reserved else unguarded)
      → NeverOk w c.clock (c.max_retries + 1)
      → (live w call key holds (record c { balance = b })).0.balance ≡ c.balance
  unfolding give_back
  goes_refund key c true b took never =
      (live-balance w call key true (record c { balance = b }) never).0
      ∙ refunded c.balance b (credit_cost call.path) true took
  goes_refund key c false b took never =
      (live-balance w call key false (record c { balance = b }) never).0
      ∙ refunded c.balance b (credit_cost call.path) false took

  Misses-refund :
      {key : Str} {c : Client} {x : Client × Outcome Out}
      → Misses w call key c x
      → NeverOk w c.clock (c.max_retries + 1)
      → x.0.balance ≡ c.balance
  Misses-refund (stays_offline off) never = refl
  Misses-refund (costly on dear no_leave) never = refl
  Misses-refund (poor on short) never = refl
  Misses-refund {key} {c} (goes holds b on fine took) never = goes_refund key c holds b took never

  Calls-refund :
      {c : Client} {x : Client × Outcome Out}
      → Calls w call c x
      → NeverOk w c.clock (c.max_retries + 1)
      → x.0.balance ≡ c.balance
  Calls-refund (unkeyed q) never = refl
  Calls-refund {c} (cached key raw q m) never = (hit-same w call raw c).2
  Calls-refund (uncached key x q m h) never = Misses-refund h never

  -- A call that gets no 200 in any of the rounds that it may take, the first and the retries, ends with the
  -- balance it began with: what it reserved is given back. What later calls get does not matter.
  pub do_call-refund :
      (c : Client)
      → NeverOk w c.clock (c.max_retries + 1)
      → (do_call w call c).0.balance ≡ c.balance
  do_call-refund c = Calls-refund (do_call-Calls w call c)

  Misses-offline :
      {key : Str} {c : Client} {x : Client × Outcome Out}
      → Misses w call key c x
      → c.offline ≡ true
      → (x.0.sent ≡ c.sent)
        × (x.0.balance ≡ c.balance)
        × (x.0.cache ≡ c.cache)
        × (x.1 ≡ failed offline_miss)
  Misses-offline (stays_offline off) _ = (refl, refl, refl, refl)
  Misses-offline (costly on dear no_leave) off = ground (arith, on, off)
  Misses-offline (poor on short) off = ground (arith, on, off)
  Misses-offline (goes holds b on fine took) off = absurd (ground (arith, on, off))

  Calls-offline :
      {c : Client} {x : Client × Outcome Out} (key : Str)
      → c.offline ≡ true
      → call.key ≡ some key
      → Calls w call c x
      → (x.0.sent ≡ c.sent)
        × (x.0.balance ≡ c.balance)
        × (x.0.cache ≡ c.cache)
        × ((x.1 ≡ failed offline_miss) ⊎ ((raw : Str) × (lookup key c.cache ≡ some raw)))
  Calls-offline key off keyed (unkeyed q) = absurd (ground (arith, q, keyed))
  Calls-offline {c} key off keyed (cached key' raw q m) =
      let (a, b, d) = hit-same w call raw c in
      (b, d, a, inr (raw, ap (λ k. lookup k c.cache) (keys_same keyed q) ∙ m))
  Calls-offline key off keyed (uncached key' x q m h) =
      let (a, b, d, e) = Misses-offline h off in (a, b, d, inl e)

  -- An offline client sends nothing, pays nothing and stores nothing, and a call with a key is in the
  -- cache or fails with the error that says so.
  pub do_call-offline :
      (c : Client) (key : Str)
      → c.offline ≡ true
      → call.key ≡ some key
      → ((do_call w call c).0.sent ≡ c.sent)
        × ((do_call w call c).0.balance ≡ c.balance)
        × ((do_call w call c).0.cache ≡ c.cache)
        × (((do_call w call c).1 ≡ failed offline_miss)
            ⊎ ((raw : Str) × (lookup key c.cache ≡ some raw)))
  do_call-offline c key off keyed = Calls-offline key off keyed (do_call-Calls w call c)

  Calls-hit :
      {c : Client} {x : Client × Outcome Out} (key raw : Str)
      → call.key ≡ some key
      → lookup key c.cache ≡ some raw
      → Calls w call c x
      → x ≡ hit call raw c
  Calls-hit {c} key raw keyed stored (unkeyed q) = absurd (ground (arith, q, keyed))
  Calls-hit {c} key raw keyed stored (cached key' raw' q m) =
      ap (λ r. hit call r c)
        (keys_same (sym (ap (λ k. lookup k c.cache) (keys_same q keyed)) ∙ m) stored)
  Calls-hit {c} key raw keyed stored (uncached key' x q m h) =
      absurd (not_both (sym m ∙ ap (λ k. lookup k c.cache) (keys_same q keyed) ∙ stored))

  hit_decodes :
      (raw : Str) (c : Client) (out : Out)
      → call.decode raw ≡ some out
      → (hit call raw c).1 ≡ done true out
  unfolding hit
  hit_decodes raw c out q = rw (hit, q) refl

module _ {Out : Type 0} (w : World) (call : Call Out) where
  -- A response that was fetched once is never fetched again: any later call of the same request, by
  -- any client that has this cache, whatever its balance and settings are and whatever the world
  -- answers then, gives the same answer out of the cache and sends and pays nothing.
  pub fetched_once :
      (w' : World) (c d : Client) (key : Str) (out : Out)
      → call.key ≡ some key
      → (do_call w call c).1 ≡ done false out
      → d.cache ≡ (do_call w call c).0.cache
      → ((do_call w' call d).1 ≡ done true out)
        × ((do_call w' call d).0.sent ≡ d.sent)
        × ((do_call w' call d).0.balance ≡ d.balance)
        × ((do_call w' call d).0.cache ≡ d.cache)
  unfolding IsCached
  fetched_once w' c d key out keyed answered same =
      let (raw, stored, decodes, fetched) =
        subst (IsCached w call key c (do_call w call c).0) answered
          (do_call-IsCached w call c key keyed) in
      let d_stored =
        ap (lookup key) (same ∙ stored)
        ∙ lookup-insert key key raw c.cache
        ∙ ap (λ t. if t then some raw else lookup key c.cache) (beq_refl key) in
      subst
        (λ x.
          (x.1 ≡ done true out)
          × (x.0.sent ≡ d.sent)
          × (x.0.balance ≡ d.balance)
          × (x.0.cache ≡ d.cache))
        (sym (Calls-hit w' call key raw keyed d_stored (do_call-Calls w' call d)))
        (let (a, b, e) = hit-same w call raw d in (hit_decodes w call raw d out decodes, b, e, a))

  -- A call that is in the cache changes neither the cache nor the balance, and sends nothing.
  pub do_call-cached :
      (c : Client) (key raw : Str)
      → call.key ≡ some key
      → lookup key c.cache ≡ some raw
      → ((do_call w call c).0.cache ≡ c.cache)
        × ((do_call w call c).0.sent ≡ c.sent)
        × ((do_call w call c).0.balance ≡ c.balance)
  do_call-cached c key raw keyed stored =
      subst (λ x. (x.0.cache ≡ c.cache) × (x.0.sent ≡ c.sent) × (x.0.balance ≡ c.balance))
        (sym (Calls-hit w call key raw keyed stored (do_call-Calls w call c)))
        (hit-same w call raw c)

-- ===== src/Nansen/Client/Ways.antt =====
-- internal/nansen/client.go: the ways through Do, as relations.
use smart_money_falsifier.Base.{
  ◌<◌, ◌≡◌, refl, ap, Bool, true, false, not, ◌&&◌, Option, none, some, if◌then◌else◌, ltb, Str,
  str_key, lookup, arith,
}
use smart_money_falsifier.Nansen.Endpoints.{credit_cost}
use smart_money_falsifier.Nansen.Budget.{
  Balance, Reservation, reserved, unguarded, refused, reserve_credits,
}
use smart_money_falsifier.Nansen.Client.{
  World, Client, Call, Outcome, failed, live, miss, hit, do_call, expensive, budget_floor,
  offline_miss, cache_key,
}

module _ {Out : Type 0} (w : World) (call : Call Out) where
  -- The ways through a call that is not in the cache, with what each one takes. `left` is the client
  -- after the reservation.
  pub data Misses (key : Str) (c : Client) : Client × Outcome Out → Type 0 where
    stays_offline : c.offline ≡ true → Misses key c (c, failed offline_miss)
    costly :
        c.offline ≡ false
        → 1 < credit_cost call.path
        → c.allow_expensive ≡ false
        → Misses key c (c, failed expensive)
    poor :
        c.offline ≡ false
        → (reserve_credits c.balance (credit_cost call.path)).1 ≡ refused
        → Misses key c (c, failed budget_floor)
    goes :
        (holds : Bool) (b : Balance)
        → c.offline ≡ false
        → ((1 < credit_cost call.path) → c.allow_expensive ≡ true)
        → reserve_credits c.balance (credit_cost call.path)
          ≡ (b, if holds then reserved else unguarded)
        → Misses key c (live w call key holds (record c { balance = b }))

  choose :
      (key : Str) (c : Client) (off dear : Bool) (r : Reservation)
      → c.offline ≡ off
      → (ltb 1 (credit_cost call.path) && not c.allow_expensive) ≡ dear
      → (reserve_credits c.balance (credit_cost call.path)).1 ≡ r
      → Misses key c (
          if off then (c, failed offline_miss) else if dear then (c, failed expensive) else elim r [
            | refused ↦ (c, failed budget_floor)
            | unguarded ↦
                live w call key false
                  (record c { balance = (reserve_credits c.balance (credit_cost call.path)).0 })
            | reserved ↦
                live w call key true
                  (record c { balance = (reserve_credits c.balance (credit_cost call.path)).0 })
          ])
  choose key c true dear r off q p = stays_offline off
  choose key c false true r on q p = costly on (ground (arith, q)) (ground (arith, q))
  choose key c false false refused on q p = poor on p
  choose key c false false unguarded on q p =
      goes false (reserve_credits c.balance (credit_cost call.path)).0 on
        (λ h. ground (arith, h, q))
        (ap (λ x. ((reserve_credits c.balance (credit_cost call.path)).0, x)) p)
  choose key c false false reserved on q p =
      goes true (reserve_credits c.balance (credit_cost call.path)).0 on (λ h. ground (arith, h, q))
        (ap (λ x. ((reserve_credits c.balance (credit_cost call.path)).0, x)) p)

  miss-Misses : (key : Str) (c : Client) → Misses key c (miss w call key c)
  unfolding miss
  miss-Misses key c = choose key c c.offline _ _ refl refl refl

  -- A call's ways: without a key, from the cache, and past it.
  pub data Calls (c : Client) : Client × Outcome Out → Type 0 where
    unkeyed : call.key ≡ none → Calls c (c, failed cache_key)
    cached :
        (key raw : Str)
        → call.key ≡ some key
        → lookup key c.cache ≡ some raw
        → Calls c (hit call raw c)
    uncached :
        (key : Str) (x : Client × Outcome Out)
        → call.key ≡ some key
        → lookup key c.cache ≡ none
        → Misses key c x
        → Calls c x

  by_cache :
      (c : Client) (key : Str) (o : Option Str)
      → call.key ≡ some key
      → lookup key c.cache ≡ o
      → Calls c (elim o [ some raw ↦ hit call raw c | none ↦ miss w call key c ])
  by_cache c key (some raw) q m = cached key raw q m
  by_cache c key none q m = uncached key (miss w call key c) q m (miss-Misses key c)

  by_key :
      (c : Client) (o : Option Str)
      → call.key ≡ o
      → Calls c (elim o [
        | none ↦ (c, failed cache_key)
        | some key ↦ elim (lookup key c.cache) [
          | some raw ↦ hit call raw c
          | none ↦ miss w call key c
        ]
      ])
  by_key c none q = unkeyed q
  by_key c (some key) q = by_cache c key (lookup key c.cache) q refl

  pub do_call-Calls : (c : Client) → Calls c (do_call w call c)
  unfolding do_call
  do_call-Calls c = by_key c call.key refl

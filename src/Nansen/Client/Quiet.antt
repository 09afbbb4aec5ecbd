-- ===== src/Nansen/Client/Quiet.antt =====
-- internal/nansen/client.go: what an offline client keeps, call after call.
use smart_money_falsifier.Base.{
  ◌≡◌, refl, inl, inr, ◌⊎◌, Bool, Bool-cases, true, ℕ, Option-cases, some, Str, Dict, arith, lookup,
  str_key,
}
use smart_money_falsifier.Nansen.Budget.{Balance}
use smart_money_falsifier.Nansen.Client.{
  World, Client, Call, CallLogEntry, Error, Outcome, done, failed, hit, do_call, log_attempt,
}
use smart_money_falsifier.Nansen.Client.Ways.{
  Misses, stays_offline, costly, poor, goes, Calls, unkeyed, cached, uncached, do_call-Calls,
}

-- Offline, with this many requests sent, this balance and this cache.
abbrev pub Quiet : ℕ → Balance → Dict Str Str → Client → Type 0
Quiet sent balance cache c =
    (c.offline ≡ true) × (c.sent ≡ sent) × (c.balance ≡ balance) × (c.cache ≡ cache)

log_attempt-Quiet :
    {n : ℕ} {b : Balance} {m : Dict Str Str} (c : Client) (e : CallLogEntry)
    → Quiet n b m c
    → Quiet n b m (log_attempt c e)
unfolding log_attempt
log_attempt-Quiet c e q = elim (Bool-cases c.logging) [ inl t ↦ rw t q | inr t ↦ rw t q ]

module _ {Out : Type 0} (w : World) (call : Call Out) {n : ℕ} {b : Balance} {m : Dict Str Str} where
  hit-Quiet : (raw : Str) (c : Client) → Quiet n b m c → Quiet n b m (hit call raw c).0
  unfolding hit
  hit-Quiet raw c q = elim (Option-cases (call.decode raw)) [
    | inl e ↦ rw (hit, e) q
    | inr (out, e) ↦ rw (hit, e) (log_attempt-Quiet c _ q)
  ]

  Misses-Quiet :
      {key : Str} {c : Client} {x : Client × Outcome Out}
      → Misses w call key c x
      → Quiet n b m c
      → Quiet n b m x.0
  Misses-Quiet (stays_offline off) q = q
  Misses-Quiet (costly on dear no_leave) q = q
  Misses-Quiet (poor on short) q = q
  Misses-Quiet (goes holds b on fine took) q = absurd (ground (arith, on, q.0))

  Calls-Quiet :
      {c : Client} {x : Client × Outcome Out} → Calls w call c x → Quiet n b m c → Quiet n b m x.0
  Calls-Quiet (unkeyed k) q = q
  Calls-Quiet {c} (cached key raw k s) q = hit-Quiet raw c q
  Calls-Quiet (uncached key x k s h) q = Misses-Quiet h q

  pub do_call-Quiet : (c : Client) → Quiet n b m c → Quiet n b m (do_call w call c).0
  do_call-Quiet c q = Calls-Quiet (do_call-Calls w call c) q

pub Outcome-cases :
    {Out : Type 0} (o : Outcome Out)
    → ((e : Error) × (o ≡ failed e)) ⊎ ((hit : Bool) × (out : Out) × (o ≡ done hit out))
Outcome-cases (done hit out) = inr (hit, out, refl)
Outcome-cases (failed e) = inl (e, refl)

-- A call whose response is in the cache returns what the response decodes to.
pub do_call-stored :
    {Out : Type 0} (w : World) (call : Call Out) (c : Client) (key raw : Str) (out : Out)
    → call.key ≡ some key
    → lookup key c.cache ≡ some raw
    → call.decode raw ≡ some out
    → (do_call w call c).1 ≡ done true out
unfolding do_call hit
do_call-stored w call c key raw out keyed stored decodes =
    rw (do_call, keyed, stored, hit, decodes) refl

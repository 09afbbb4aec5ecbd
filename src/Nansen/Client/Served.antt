-- ===== src/Nansen/Client/Served.antt =====
-- internal/nansen/client.go: a call that a server answers in time.
use smart_money_falsifier.Base.{
  ℕ, zero, suc, ◌+◌, ◌≤◌, ◌≡◌, ◌⊎◌, true, false, some, Str, str_key, lookup,
}
use smart_money_falsifier.Nansen.Client.{
  World, Client, Call, Response, network_error, responds, body, Outcome, done,
}

module _ (w : World) where
  -- No wait of the round is cut short.
  abbrev IsWaited : ℕ → Type 0
  IsWaited k = (w.backoff_cancelled k ≡ false) × (w.limiter_cancelled k ≡ false)

  -- What the client tries again after: no response, one that breaks off, a 429 and a server's error.
  pub data IsRetried (k : ℕ) : Type 0 where
    unheard : IsWaited k → w.reply k ≡ network_error → IsRetried k
    broken :
        IsWaited k → (r : Response) → w.reply k ≡ responds r → r.read_fails ≡ true → IsRetried k
    turned_away :
        IsWaited k
        → (r : Response) → w.reply k ≡ responds r
        → (r.status_code ≡ 429) ⊎ (500 ≤ r.status_code)
        → IsRetried k

  -- From round `k` on, `n` rounds are tried again and the next has a 200 with this body.
  unfoldable pub Serves : ℕ → ℕ → Str → Type 0
  Serves k zero raw =
      IsWaited k
      × ((r : Response) × (w.reply k ≡ responds r)
          × (r.status_code ≡ 200)
          × (r.read_fails ≡ false)
          × (r.body ≡ raw))
  Serves k (suc n) raw = IsRetried k × Serves (k + 1) n raw

module _ {Out : Type 0} (w : World) (call : Call Out) where
  -- The call has its result, and the response is in the cache.
  abbrev pub IsDone : Str → Str → Out → Client × Outcome Out → Type 0
  IsDone key raw out x = (x.1 ≡ done false out) × (lookup key x.0.cache ≡ some raw)

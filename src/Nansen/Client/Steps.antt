-- ===== src/Nansen/Client/Steps.antt =====
-- internal/nansen/client.go: the steps of Do, and what each leaves of the client.
use smart_money_falsifier.Base.{
  ℕ, ◌+◌, ◌≤◌, ◌≡◌, ◌⊎◌, refl, ap, ◌∙◌, inl, inr, Bool, true, false, some, Bool-cases, Option-cases,
  Str, str_key, insert, arith,
}
use smart_money_falsifier.Nansen.Endpoints.{credit_cost}
use smart_money_falsifier.Nansen.Budget.{release_reserved_credits}
use smart_money_falsifier.Nansen.Client.{
  World, Client, Call, CallLogEntry, Error, Outcome, done, failed, HttpResult, got, lost,
  log_attempt, do_http, store, live, hit, give_back, zero_entry, no_error,
}
use smart_money_falsifier.Nansen.Client.Attempts.{
  NeverOk, IsFetched, attempts-IsFrame, attempts-balance, attempts-IsFetched,
}

HttpResult-cases : (r : HttpResult) → ((raw : Str) × (r ≡ got raw)) ⊎ ((e : Error) × (r ≡ lost e))
HttpResult-cases (got raw) = inl (raw, refl)
HttpResult-cases (lost e) = inr (e, refl)

pub log_attempt-same :
    (c : Client) (e : CallLogEntry)
    → ((log_attempt c e).cache ≡ c.cache)
      × ((log_attempt c e).sent ≡ c.sent)
      × ((log_attempt c e).balance ≡ c.balance)
unfolding log_attempt
log_attempt-same c e = ground arith

give_back-same :
    (holds : Bool) (cost : ℕ) (c : Client)
    → ((give_back holds cost c).cache ≡ c.cache) × ((give_back holds cost c).sent ≡ c.sent)
unfolding give_back
give_back-same true cost c = (refl, refl)
give_back-same false cost c = (refl, refl)

give_back-balance :
    (holds : Bool) (cost : ℕ) (c d : Client)
    → c.balance ≡ d.balance
    → (give_back holds cost c).balance ≡ (give_back holds cost d).balance
unfolding give_back
give_back-balance true cost c d same = ap (λ b. release_reserved_credits b cost) same
give_back-balance false cost c d same = same

module _ {Out : Type 0} (w : World) (call : Call Out) where
  -- A cached response is served, whatever the client's settings are, and nothing else changes but the log.
  pub hit-same :
      (raw : Str) (c : Client)
      → ((hit call raw c).0.cache ≡ c.cache)
        × ((hit call raw c).0.sent ≡ c.sent)
        × ((hit call raw c).0.balance ≡ c.balance)
  unfolding hit
  hit-same raw c = elim (Option-cases (call.decode raw)) [
    | inl q ↦ rw (hit, q) (refl, refl, refl)
    | inr (out, q) ↦ rw (hit, q) (log_attempt-same c _)
  ]

  pub store-same :
      (key raw : Str) (c : Client)
      → ((store w call key raw c).0.sent ≡ c.sent)
        × ((store w call key raw c).0.balance ≡ c.balance)
  unfolding store
  store-same key raw c = elim (Option-cases (call.decode raw)) [
    | inl q ↦ rw (store, q) (refl, refl)
    | inr (out, q) ↦ elim (Bool-cases (w.put_fails key)) [
      | inl b ↦ rw (store, q, b) (refl, refl)
      | inr b ↦ rw (store, q, b) (refl, refl)
    ]
  ]

  -- What a call adds to the cache: the body of a 200 that it read and decoded, under its own key.
  unfoldable pub IsCached : Str → Client → Client → Outcome Out → Type 0
  IsCached key c c' (failed e) = c'.cache ≡ c.cache
  IsCached key c c' (done true out) = c'.cache ≡ c.cache
  IsCached key c c' (done false out) =
      (raw : Str) × (c'.cache ≡ insert key raw c.cache)
      × (call.decode raw ≡ some out)
      × IsFetched w c.clock (c.max_retries + 1) raw

  store-IsCached :
      (key raw : Str) (b c : Client)
      → c.cache ≡ b.cache
      → IsFetched w b.clock (b.max_retries + 1) raw
      → IsCached key b (store w call key raw c).0 (store w call key raw c).1
  unfolding store IsCached
  store-IsCached key raw b c same h = elim (Option-cases (call.decode raw)) [
    | inl q ↦ rw (store, q) same
    | inr (out, q) ↦ elim (Bool-cases (w.put_fails key)) [
      | inl f ↦ rw (store, q, f) same
      | inr f ↦ rw (store, q, f) (raw, ap (insert key raw) same, q, h)
    ]
  ]

  pub live-sent :
      (key : Str) (holds : Bool) (c : Client)
      → (live w call key holds c).0.sent ≤ c.sent + (c.max_retries + 1)
  unfolding live do_http
  live-sent key holds c =
      let cost = credit_cost call.path in
      let (c₁, entry, result) = do_http w call.path cost c in
      let (frame, bound) =
        attempts-IsFrame w call.path cost (c.max_retries + 1) 0 zero_entry no_error c in
      let (cached, sent, kept) = log_attempt-same c₁ entry in
      elim (HttpResult-cases result) [
        | inl (raw, q) ↦
            let (sent', kept') = store-same key raw (log_attempt c₁ entry) in
            rw (live, do_http, q) (omega (arith, bound, sent, sent'))
        | inr (e, q) ↦
            rw (live, do_http, q)
              (omega (arith, bound, sent, (give_back-same holds cost (log_attempt c₁ entry)).1))
      ]

  pub live-IsCached :
      (key : Str) (holds : Bool) (c : Client)
      → IsCached key c (live w call key holds c).0 (live w call key holds c).1
  unfolding live do_http IsCached
  live-IsCached key holds c =
      let cost = credit_cost call.path in
      let (c₁, entry, result) = do_http w call.path cost c in
      let (frame, bound) =
        attempts-IsFrame w call.path cost (c.max_retries + 1) 0 zero_entry no_error c in
      let (cached, sent, kept) = log_attempt-same c₁ entry in
      elim (HttpResult-cases result) [
        | inl (raw, q) ↦
            rw (live, do_http, q)
              (store-IsCached key raw c (log_attempt c₁ entry) (cached ∙ frame.same_cache) (
                attempts-IsFetched w call.path cost (c.max_retries + 1) 0 zero_entry no_error c raw
                  q))
        | inr (e, q) ↦
            rw (live, do_http, q)
              ((give_back-same holds cost (log_attempt c₁ entry)).0 ∙ cached ∙ frame.same_cache)
      ]

  never-got :
      (c : Client) (raw : Str)
      → NeverOk w c.clock (c.max_retries + 1)
      → (do_http w call.path (credit_cost call.path) c).2 ≡ got raw
      → ⊥
  unfolding do_http NeverOk IsFetched
  never-got c raw never q =
      let (k, r, le, lt, answers, ok, read, same) =
        attempts-IsFetched w call.path (credit_cost call.path) (c.max_retries + 1) 0 zero_entry
          no_error c raw q in
      absurd (ground (arith, never k r le lt answers, ok))

  pub live-balance :
      (key : Str) (holds : Bool) (c : Client)
      → NeverOk w c.clock (c.max_retries + 1)
      → ((live w call key holds c).0.balance ≡ (give_back holds (credit_cost call.path) c).balance)
        × ((e : Error) × ((live w call key holds c).1 ≡ failed e))
  unfolding live do_http
  live-balance key holds c never =
      let cost = credit_cost call.path in
      let (c₁, entry, result) = do_http w call.path cost c in
      let same =
        attempts-balance w call.path cost (c.max_retries + 1) 0 zero_entry no_error c never in
      let (cached, sent, kept) = log_attempt-same c₁ entry in
      elim (HttpResult-cases result) [
        | inl (raw, q) ↦ absurd (never-got c raw never q)
        | inr (e, q) ↦
            rw (live, do_http, q)
              (give_back-balance holds cost (log_attempt c₁ entry) c (kept ∙ same), (e, refl))
      ]

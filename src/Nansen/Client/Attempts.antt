-- ===== src/Nansen/Client/Attempts.antt =====
-- The retry loop of doHTTP: what it leaves alone, how often it sends, and when it touches the balance.
use smart_money_falsifier.Base.{
  ℕ, zero, suc, ◌+◌, ◌≤◌, ◌<◌, ◌≡◌, ◌⊎◌, refl, sym, subst, ap, ◌∙◌, inl, inr, true, false, ◌&&◌,
  Bool-cases, ltb, ◌==◌, Str, str_key, arith,
}
use smart_money_falsifier.Nansen.Client.{
  World, Client, CallLogEntry, Error, Reply, unbuildable, network_error, responds, Response, Round,
  body, gives_up, again, got, lost, observe, judge, answer, round, attempts,
}

-- What no round of the loop changes.
pub record IsFrame (c c' : Client) : Type 0 where
  pub same_cache : c'.cache ≡ c.cache
  pub same_log : c'.log ≡ c.log
  pub same_logging : c'.logging ≡ c.logging
  pub same_offline : c'.offline ≡ c.offline
  pub same_retries : c'.max_retries ≡ c.max_retries
  pub same_expensive : c'.allow_expensive ≡ c.allow_expensive

pub IsFrame-trans : {a b c : Client} → IsFrame a b → IsFrame b c → IsFrame a c
IsFrame-trans h k = ground arith

got-injective : {a b : Str} → got a ≡ got b → a ≡ b
got-injective q = ground (arith, q)

lost≢got : {e : Error} {a : Str} → lost e ≡ got a → ⊥
lost≢got q = ground (arith, q)

module _ (w : World) where
  -- No reply that the world gives in the next `rounds` rounds is a 200.
  unfoldable pub NeverOk : ℕ → ℕ → Type 0
  NeverOk clock rounds =
      (k : ℕ) (r : Response)
      → clock ≤ k
      → k < clock + rounds
      → w.reply k ≡ responds r
      → (r.status_code == 200) ≡ false

  later : (m n left : ℕ) → n ≡ m + 1 → NeverOk m (suc left) → NeverOk n left
  unfolding NeverOk
  later m n left next h k r le lt e = h k r (omega (arith, next)) (omega (arith, next)) e

  -- A body comes from a 200 that was read, in one of the next `rounds` rounds.
  unfoldable pub IsFetched : ℕ → ℕ → Str → Type 0
  IsFetched clock rounds raw =
      (k : ℕ) × (r : Response) × (clock ≤ k)
      × (k < clock + rounds)
      × (w.reply k ≡ responds r)
      × ((r.status_code == 200) ≡ true)
      × (r.read_fails ≡ false)
      × (r.body ≡ raw)

  IsFetched-later :
      (m n left : ℕ) (raw : Str) → n ≡ m + 1 → IsFetched n left raw → IsFetched m (suc left) raw
  unfolding IsFetched
  IsFetched-later m n left raw next (k, r, at, lt, q, ok, read, same) =
      (k, r, omega (arith, next), omega (arith, next), q, ok, read, same)

module _ (w : World) (path : Str) (cost : ℕ) where
  answer-IsFrame :
      (last : CallLogEntry) (c : Client) (reply : Reply)
      → IsFrame c (answer w path cost last c reply).0
        × ((answer w path cost last c reply).0.clock ≡ c.clock)
        × (c.sent ≤ (answer w path cost last c reply).0.sent)
        × ((answer w path cost last c reply).0.sent ≤ c.sent + 1)
  unfolding answer
  answer-IsFrame last c unbuildable = ground arith
  answer-IsFrame last c network_error = ground arith
  answer-IsFrame last c (responds r) = ground arith

  round-IsFrame :
      (attempt : ℕ) (last : CallLogEntry) (c : Client)
      → IsFrame c (round w path cost attempt last c).0
        × ((round w path cost attempt last c).0.clock ≡ c.clock + 1)
        × (c.sent ≤ (round w path cost attempt last c).0.sent)
        × ((round w path cost attempt last c).0.sent ≤ c.sent + 1)
  unfolding round
  round-IsFrame attempt last c =
      ground (arith, answer-IsFrame last (record c { clock = c.clock + 1 }) (w.reply c.clock))

  answer-balance :
      (last : CallLogEntry) (c : Client) (reply : Reply)
      → ((r : Response) → reply ≡ responds r → (r.status_code == 200) ≡ false)
      → (answer w path cost last c reply).0.balance ≡ c.balance
  unfolding answer observe
  answer-balance last c unbuildable h = refl
  answer-balance last c network_error h = refl
  answer-balance last c (responds r) h = rw (h r refl)

  round-balance :
      (left attempt : ℕ) (last : CallLogEntry) (c : Client)
      → NeverOk w c.clock (suc left)
      → (round w path cost attempt last c).0.balance ≡ c.balance
  unfolding round NeverOk
  round-balance left attempt last c h = ground (
    arith,
    answer-balance last (record c { clock = c.clock + 1 }) (w.reply c.clock)
        (λ r e. h c.clock r (omega arith) (omega arith) e),
  )

  Round-cases :
      (r : Round)
      → ((entry : CallLogEntry) × (raw : Str) × (r ≡ body entry raw))
        ⊎ ((entry : CallLogEntry) × (e : Error) × (r ≡ gives_up entry e))
        ⊎ ((entry : CallLogEntry) × (e : Error) × (r ≡ again entry e))
  Round-cases (body entry raw) = inl (entry, raw, refl)
  Round-cases (gives_up entry e) = inr (inl (entry, e, refl))
  Round-cases (again entry e) = inr (inr (entry, e, refl))

  pub attempts-IsFrame :
      (left attempt : ℕ) (last : CallLogEntry) (e : Error) (c : Client)
      → IsFrame c (attempts w path cost left attempt last e c).0
        × ((attempts w path cost left attempt last e c).0.sent ≤ c.sent + left)
  unfolding attempts
  attempts-IsFrame zero attempt last e c = ground arith
  attempts-IsFrame (suc left) attempt last e c =
      let (c', r) = round w path cost attempt last c in
      let step = round-IsFrame attempt last c in
      elim (Round-cases r) [
        | inl (entry, raw, q) ↦ rw (attempts, q) (ground (arith, step))
        | inr (inl (entry, e', q)) ↦ rw (attempts, q) (ground (arith, step))
        | inr (inr (entry, e', q)) ↦
            rw (attempts, q) (ground (arith, step, attempts-IsFrame left (attempt + 1) entry e' c'))
      ]

  pub attempts-balance :
      (left attempt : ℕ) (last : CallLogEntry) (e : Error) (c : Client)
      → NeverOk w c.clock left
      → (attempts w path cost left attempt last e c).0.balance ≡ c.balance
  unfolding attempts
  attempts-balance zero attempt last e c h = refl
  attempts-balance (suc left) attempt last e c h =
      let (c', r) = round w path cost attempt last c in
      let step = round-balance left attempt last c h in
      let frame = round-IsFrame attempt last c in
      elim (Round-cases r) [
        | inl (entry, raw, q) ↦ rw (attempts, q) step
        | inr (inl (entry, e', q)) ↦ rw (attempts, q) step
        | inr (inr (entry, e', q)) ↦
            rw (attempts, q)
              (attempts-balance left (attempt + 1) entry e' c'
                  (later w c.clock c'.clock left (omega (arith, frame)) h)
                ∙ step)
      ]

  answer-IsFetched :
      (last entry : CallLogEntry) (raw : Str) (c : Client) (reply : Reply)
      → (answer w path cost last c reply).1 ≡ body entry raw
      → (r : Response) × (reply ≡ responds r)
        × ((r.status_code == 200) ≡ true)
        × (r.read_fails ≡ false)
        × (r.body ≡ raw)
  unfolding answer judge
  answer-IsFetched last entry raw c unbuildable e = absurd (ground (arith, e))
  answer-IsFetched last entry raw c network_error e = absurd (ground (arith, e))
  answer-IsFetched last entry raw c (responds r) e =
      (r, refl, ground (arith, e), ground (arith, e), ground (arith, e))

  round-IsFetched :
      (left attempt : ℕ) (last entry : CallLogEntry) (raw : Str) (c : Client)
      → (round w path cost attempt last c).1 ≡ body entry raw
      → IsFetched w c.clock (suc left) raw
  unfolding round IsFetched
  round-IsFetched left attempt last entry raw c e =
      elim (Bool-cases (ltb 0 attempt && w.backoff_cancelled c.clock)) [
        | inl b ↦ absurd (ground (arith, b, e))
        | inr b ↦ elim (Bool-cases (w.limiter_cancelled c.clock)) [
          | inl b' ↦ absurd (ground (arith, b, b', e))
          | inr b' ↦
              let next = record c { clock = c.clock + 1 } in
              let (r, q, ok, read, same) =
                answer-IsFetched last entry raw next (w.reply c.clock) (ground (arith, b, b', e)) in
              (c.clock, r, omega arith, omega arith, q, ok, read, same)
        ]
      ]

  attempts_body :
      (left attempt : ℕ) (last entry : CallLogEntry) (e : Error) (c : Client) (raw : Str)
      → (round w path cost attempt last c).1 ≡ body entry raw
      → (attempts w path cost (suc left) attempt last e c).2 ≡ got raw
  unfolding attempts
  attempts_body left attempt last entry e c raw q = rw (attempts, q) refl

  attempts_gives_up :
      (left attempt : ℕ) (last entry : CallLogEntry) (e e' : Error) (c : Client)
      → (round w path cost attempt last c).1 ≡ gives_up entry e'
      → (attempts w path cost (suc left) attempt last e c).2 ≡ lost e'
  unfolding attempts
  attempts_gives_up left attempt last entry e e' c q = rw (attempts, q) refl

  pub attempts_again :
      (left attempt : ℕ) (last entry : CallLogEntry) (e e' : Error) (c : Client)
      → (round w path cost attempt last c).1 ≡ again entry e'
      → attempts w path cost (suc left) attempt last e c
        ≡ attempts w path cost left (attempt + 1) entry e' (round w path cost attempt last c).0
  unfolding attempts
  attempts_again left attempt last entry e e' c q = rw (attempts, q) refl

  pub attempts-IsFetched :
      (left attempt : ℕ) (last : CallLogEntry) (e : Error) (c : Client) (raw : Str)
      → (attempts w path cost left attempt last e c).2 ≡ got raw
      → IsFetched w c.clock left raw
  unfolding attempts
  attempts-IsFetched zero attempt last e c raw h = absurd (ground (arith, h))
  attempts-IsFetched (suc left) attempt last e c raw h =
      let (c', r) = round w path cost attempt last c in
      let frame = round-IsFrame attempt last c in
      elim (Round-cases r) [
        | inl (entry, raw', q) ↦
            subst (IsFetched w c.clock (suc left))
              (got-injective (sym (attempts_body left attempt last entry e c raw' q) ∙ h))
              (round-IsFetched left attempt last entry raw' c q)
        | inr (inl (entry, e', q)) ↦
            absurd (lost≢got (sym (attempts_gives_up left attempt last entry e e' c q) ∙ h))
        | inr (inr (entry, e', q)) ↦
            IsFetched-later w c.clock c'.clock left raw (omega (arith, frame)) (
              attempts-IsFetched left (attempt + 1) entry e' c' raw
                (ap (λ t. t.2) (sym (attempts_again left attempt last entry e e' c q)) ∙ h))
      ]

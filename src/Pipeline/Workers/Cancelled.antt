-- ===== src/Pipeline/Workers/Cancelled.antt =====
-- runPool: what it runs, and what is left when it is cancelled.
use smart_money_falsifier.Base.{
  ℕ, suc, ◌≡◌, refl, ap, subst, ◌∙◌, inl, inr, Bool, Bool-cases, true, false, none, some, List, [],
  ◌∷◌, map, fold, Permᴰ, keys, str_lt, sort_by, Str, str_key, Dict, lookup, MapOrder, arith,
  length-perm,
}
use smart_money_falsifier.Float.{Float64}
use smart_money_falsifier.Nansen.Client.{World, Client}
use smart_money_falsifier.Pipeline.Universe.{WalletAgg, TokenAgg}
use smart_money_falsifier.Pipeline.Assemble.{wallet_input, first_funders}
use smart_money_falsifier.Pipeline.Workers.{
  Shared, Requests, is_blind, dispatch, pool_from, run_pool, fetch_pnl, fetch_related, fetch_token,
  initial_results, related_items, enrich, empty_token,
}

dispatch-all :
    (cancelled : ℕ → Bool) (k : ℕ) (xs : List Str)
    → ((i : ℕ) → cancelled i ≡ false)
    → dispatch cancelled k xs ≡ xs
unfolding dispatch
dispatch-all cancelled k [] h = refl
dispatch-all cancelled k (x ∷ xs) h = rw (h k, dispatch-all cancelled (suc k) xs h) refl

empty-perm : {A : Type 0} (xs : List A) → Permᴰ xs [] → xs ≡ []
empty-perm [] p = refl
empty-perm (x ∷ xs) p = absurd (ground (arith, length-perm p))

module _ {W : Type 0} (order : MapOrder) (cancelled : ℕ → Bool)
    (fn : Shared W → Str → Shared W) where
  pool_from-complete :
      (k : ℕ) (items : List Str) (s : Shared W)
      → ((i : ℕ) → cancelled i ≡ false)
      → Permᴰ (pool_from order cancelled fn k items s).1 items
  unfolding pool_from
  pool_from-complete k [] s h = Permᴰ.nil
  pool_from-complete k (x ∷ xs) s h = elim (Bool-cases (is_blind s)) [
    | inl b ↦ rw (b, h k) (Permᴰ.cons refl (pool_from-complete (suc k) xs (fn s x) h))
    | inr b ↦ rw b (
        subst (λ l. Permᴰ (order.shuffle Str k (dispatch cancelled k (x ∷ xs))) l)
          (dispatch-all cancelled k (x ∷ xs) h)
          (order.shuffle_perm Str k (dispatch cancelled k (x ∷ xs))))
  ]

  -- A pool that is not cancelled runs every item exactly once, in whatever order the workers finish.
  pub run_pool-complete :
      (items : List Str) (s : Shared W)
      → ((i : ℕ) → cancelled i ≡ false)
      → Permᴰ (run_pool order cancelled fn items s).1 items
  unfolding run_pool
  run_pool-complete items s h = pool_from-complete 0 items s h

  run_pool-cancelled :
      (items : List Str) (s : Shared W)
      → cancelled 0 ≡ true
      → (run_pool order cancelled fn items s).0 ≡ s
  unfolding run_pool pool_from dispatch
  run_pool-cancelled [] s h = refl
  run_pool-cancelled (x ∷ xs) s h = elim (Bool-cases (is_blind s)) [
    | inl b ↦ rw (b, h) refl
    | inr b ↦ rw (b, h) (ap (fold fn s) (empty-perm _ (order.shuffle_perm Str 0 [])))
  ]

lookup-initial :
    {W : Type 0} (aggs : Dict Str (WalletAgg W)) (addr : Str) (agg : WalletAgg W)
    → lookup addr aggs ≡ some agg
    → lookup addr (initial_results aggs)
      ≡ some (record { pnl = none; related_wallets = []; related_ok = true })
unfolding initial_results lookup
lookup-initial [] addr agg q = absurd (ground (arith, q))
lookup-initial ((k, a) ∷ aggs) addr agg q = elim (Bool-cases (str_key.beq k addr)) [
  | inl b ↦ rw b refl
  | inr b ↦ rw b (lookup-initial aggs addr agg (ground (arith, b, q)))
]

module _ {W : Type 0} ⦃f : Float64 W⦄ where
  -- The state that `Run` makes before it asks for anything.
  abbrev untouched : Dict Str (WalletAgg W) → Dict Str TokenAgg → Client → Shared W
  untouched wallet_aggs token_aggs c = record {
    client = c;
    wallets = initial_results wallet_aggs;
    tokens = map (λ kv. (kv.0, empty_token)) token_aggs;
    failures = [];
    reports = [];
  }

  enrich-untouched :
      (w : World) (requests : Requests W) (order : MapOrder) (cancelled : ℕ → ℕ → Bool)
      (wallet_aggs : Dict Str (WalletAgg W)) (token_aggs : Dict Str TokenAgg) (c : Client)
      → ((stage : ℕ) → cancelled stage 0 ≡ true)
      → enrich w requests order cancelled wallet_aggs token_aggs c
        ≡ untouched wallet_aggs token_aggs c
  unfolding enrich
  enrich-untouched w requests order cancelled wallet_aggs token_aggs c h =
      run_pool-cancelled order (cancelled 2) (fetch_token w requests token_aggs)
        (sort_by str_lt (keys token_aggs)) _ (h 2)
      ∙ run_pool-cancelled order (cancelled 1) (fetch_related w requests)
          (related_items wallet_aggs) _ (h 1)
      ∙ run_pool-cancelled order (cancelled 0) (fetch_pnl w requests)
          (sort_by str_lt (keys wallet_aggs)) _ (h 0)

  -- An interrupt before the first item of each pool leaves every wallet of the universe marked as
  -- checked, with no funder and no failure on record, though nothing was asked about it.
  pub enrich-cancelled :
      (w : World) (requests : Requests W) (order : MapOrder) (cancelled : ℕ → ℕ → Bool)
      (wallet_aggs : Dict Str (WalletAgg W)) (token_aggs : Dict Str TokenAgg) (c : Client)
      (addr : Str) (agg : WalletAgg W)
      → ((stage : ℕ) → cancelled stage 0 ≡ true)
      → lookup addr wallet_aggs ≡ some agg
      → let s = enrich w requests order cancelled wallet_aggs token_aggs c in
        (s.client ≡ c)
        × (s.failures ≡ [])
        × ((wallet_input addr agg (lookup addr s.wallets)).funder_checked ≡ true)
        × ((wallet_input addr agg (lookup addr s.wallets)).funders ≡ [])
  unfolding wallet_input first_funders
  enrich-cancelled w requests order cancelled wallet_aggs token_aggs c addr agg h q =
      rw (enrich-untouched w requests order cancelled wallet_aggs token_aggs c h) (
        refl,
        refl,
        rw (lookup-initial wallet_aggs addr agg q) refl,
        rw (lookup-initial wallet_aggs addr agg q) refl,
      )

-- ===== src/Pipeline/Workers/Offline.antt =====
-- internal/pipeline/pipeline.go: the pools of Run with an offline client.
use smart_money_falsifier.Base.{
  ℕ, suc, inl, inr, Bool, Bool-cases, List, [], ◌∷◌, map, fold_inv, Str, str_key, Dict, lookup_or,
  MapOrder, keys, sort_by, str_lt,
}
use smart_money_falsifier.Nansen.Budget.{Balance}
use smart_money_falsifier.Nansen.Client.{World, Client, do_call}
use smart_money_falsifier.Nansen.Client.Quiet.{Quiet, do_call-Quiet, Outcome-cases}
use smart_money_falsifier.Pipeline.Universe.{WalletAgg, TokenAgg}
use smart_money_falsifier.Pipeline.Workers.{
  Shared, Requests, is_blind, dispatch, pool_from, run_pool, fetch_pnl, fetch_related, fetch_flow,
  fetch_info, fetch_token, related_items, enrich, initial_results, empty_token, address_of,
}
use smart_money_falsifier.Pipeline.Universe.{split_wallet_chain_key}

-- A pool keeps what each of its calls keeps.
module _ {ℓ} {W : Type 0} (P : Shared W → Type ℓ) (fn : Shared W → Str → Shared W)
    (keeps : (s : Shared W) (k : Str) → P s → P (fn s k)) where
  pool_from_inv :
      (order : MapOrder) (cancelled : ℕ → Bool) (k : ℕ) (items : List Str) (s : Shared W)
      → P s
      → P (pool_from order cancelled fn k items s).0
  unfolding pool_from
  pool_from_inv order cancelled k [] s h = h
  pool_from_inv order cancelled k (x ∷ xs) s h = elim (Bool-cases (is_blind s)) [
    | inl b ↦ elim (Bool-cases (cancelled k)) [
      | inl c ↦ rw (b, c) h
      | inr c ↦ rw (b, c) (pool_from_inv order cancelled (suc k) xs (fn s x) (keeps s x h))
    ]
    | inr b ↦ rw b (
        fold_inv P fn s (order.shuffle Str k (dispatch cancelled k (x ∷ xs))) (λ t y _. keeps t y)
          h)
  ]

  pub run_pool_inv :
      (order : MapOrder) (cancelled : ℕ → Bool) (items : List Str) (s : Shared W)
      → P s
      → P (run_pool order cancelled fn items s).0
  unfolding run_pool
  run_pool_inv order cancelled items s h = pool_from_inv order cancelled 0 items s h

module _ {W : Type 0} (w : World) (requests : Requests W) (n : ℕ) (b : Balance)
    (m : Dict Str Str) where
  abbrev pub IsQuiet : Shared W → Type 0
  IsQuiet s = Quiet n b m s.client

  fetch_pnl-IsQuiet : (s : Shared W) (k : Str) → IsQuiet s → IsQuiet (fetch_pnl w requests s k)
  unfolding fetch_pnl
  fetch_pnl-IsQuiet s k q =
      let r = do_call-Quiet w (requests.pnl k) s.client q in
      elim (Outcome-cases (do_call w (requests.pnl k) s.client).1) [
        | inl (e, o) ↦ rw (fetch_pnl, o) r
        | inr (hit, out, o) ↦ rw (fetch_pnl, o) r
      ]

  fetch_related-IsQuiet :
      (s : Shared W) (k : Str) → IsQuiet s → IsQuiet (fetch_related w requests s k)
  unfolding fetch_related
  fetch_related-IsQuiet s k q =
      let (addr, chain) = address_of (split_wallet_chain_key k) in
      let r = do_call-Quiet w (requests.related addr chain) s.client q in
      elim (Outcome-cases (do_call w (requests.related addr chain) s.client).1) [
        | inl (e, o) ↦ rw (fetch_related, o) r
        | inr (hit, out, o) ↦ rw (fetch_related, o) r
      ]

  fetch_flow-IsQuiet :
      (k : Str) (agg : TokenAgg) (s : Shared W)
      → IsQuiet s
      → IsQuiet (fetch_flow w requests k agg s)
  unfolding fetch_flow
  fetch_flow-IsQuiet k agg s q =
      let r = do_call-Quiet w (requests.flow agg.chain agg.address) s.client q in
      elim (Outcome-cases (do_call w (requests.flow agg.chain agg.address) s.client).1) [
        | inl (e, o) ↦ rw (fetch_flow, o) r
        | inr (hit, out, o) ↦ rw (fetch_flow, o) r
      ]

  fetch_info-IsQuiet :
      (k : Str) (agg : TokenAgg) (s : Shared W)
      → IsQuiet s
      → IsQuiet (fetch_info w requests k agg s)
  unfolding fetch_info
  fetch_info-IsQuiet k agg s q =
      let r = do_call-Quiet w (requests.info agg.chain agg.address) s.client q in
      elim (Outcome-cases (do_call w (requests.info agg.chain agg.address) s.client).1) [
        | inl (e, o) ↦ rw (fetch_info, o) r
        | inr (hit, out, o) ↦ rw (fetch_info, o) r
      ]

  fetch_token-IsQuiet :
      (aggs : Dict Str TokenAgg) (s : Shared W) (k : Str)
      → IsQuiet s
      → IsQuiet (fetch_token w requests aggs s k)
  unfolding fetch_token
  fetch_token-IsQuiet aggs s k q =
      let agg = lookup_or k (record { chain = []; address = []; seed_symbol = [] }) aggs in
      fetch_info-IsQuiet k agg (fetch_flow w requests k agg s) (fetch_flow-IsQuiet k agg s q)

  pub enrich-IsQuiet :
      (order : MapOrder) (cancelled : ℕ → ℕ → Bool) (wallets : Dict Str (WalletAgg W))
      (tokens : Dict Str TokenAgg) (c : Client)
      → Quiet n b m c
      → IsQuiet (enrich w requests order cancelled wallets tokens c)
  unfolding enrich
  enrich-IsQuiet order cancelled wallets tokens c q =
      let s₀ : Shared W = record {
        client = c;
        wallets = initial_results wallets;
        tokens = map (λ kv. (kv.0, empty_token)) tokens;
        failures = [];
        reports = [];
      } in
      let pnls = sort_by str_lt (keys wallets) in
      let related = related_items wallets in
      let s₁ = (run_pool order (cancelled 0) (fetch_pnl w requests) pnls s₀).0 in
      let s₂ = (run_pool order (cancelled 1) (fetch_related w requests) related s₁).0 in
      let q₁ =
        run_pool_inv IsQuiet (fetch_pnl w requests) fetch_pnl-IsQuiet order (cancelled 0) pnls s₀
          q in
      let q₂ =
        run_pool_inv IsQuiet (fetch_related w requests) fetch_related-IsQuiet order (cancelled 1)
          related s₁ q₁ in
      run_pool_inv IsQuiet (fetch_token w requests tokens) (fetch_token-IsQuiet tokens) order
        (cancelled 2) (sort_by str_lt (keys tokens)) s₂ q₂

-- ===== src/Pipeline/Plan.antt =====
-- internal/pipeline/plan.go: the calls that a run would make, and what they would cost. A stage's calls
-- are a list; `cached` is at most `total`, so that the subtraction does not stop at 0.
pub mod Free
use smart_money_falsifier.Base.{
  ℕ, suc, ◌+◌, ◌-◌, ◌*◌, Bool, true, false, not, Option, none, some, List, [], ◌∷◌, ◌++◌, map,
  if◌then◌else◌, ◌==◌, length, fold, select, Str, str, str_key, Dict, lookup_or, MapOrder,
}
use smart_money_falsifier.Float.{Float64}
use smart_money_falsifier.Nansen.Endpoints.{
  credit_cost, path_smart_money_dex_trades, path_profiler_pnl_summary,
  path_profiler_related_wallets, path_tgm_flow_intelligence, path_tgm_token_information,
  path_tgm_token_ohlcv,
}
use smart_money_falsifier.Nansen.Client.{
  World, Client, Call, Plan, Outcome, done, failed, plan_call, do_call,
}
use smart_money_falsifier.Score.Move.{Buy}
use smart_money_falsifier.Pipeline.Universe.{
  DexTrade, WalletAgg, TokenAgg, ParseTime, derive_universe, limit_universe, seed_buys,
}
use smart_money_falsifier.Pipeline.Workers.{Requests}

infixl 1 ◌>>=◌
abbrev pub ◌>>=◌ : {A B : Type 0} → Option A → (A → Option B) → Option B
none >>= k = none
some a >>= k = k a

pub record PlanItem : Type 0 where
  pub endpoint : Str
  pub total : ℕ
  pub cached : ℕ
  pub fresh : ℕ
  pub cost_per_call : ℕ
  pub upper_bound : Bool

unfoldable pub new_credits_estimate : PlanItem → ℕ
new_credits_estimate i = i.fresh * i.cost_per_call

unfoldable pub plan_item_from_call : Str → ℕ → Bool → ℕ → PlanItem
plan_item_from_call endpoint total cache_hit cost =
    let cached = if cache_hit then 1 else 0 in
    record {
      endpoint = endpoint;
      total = total;
      cached = cached;
      fresh = total - cached;
      cost_per_call = cost;
      upper_bound = false;
    }

unfoldable pub with_cached : PlanItem → ℕ → PlanItem
with_cached i cached = record i { cached = cached; fresh = i.total - cached }

-- What a call adds to `total` and `cached`.
unfoldable pub add_plan : Option Plan → Option (ℕ × ℕ) → Option (ℕ × ℕ)
add_plan none rest = none
add_plan (some p) none = none
add_plan (some p) (some (total, cached)) =
    some (suc total, if p.cache_hit then suc cached else cached)

-- A loop of PlanCall: how many calls there are and how many are cached, or nothing on an error.
unfoldable pub count_calls : {Out : Type 0} → Client → List (Call Out) → Option (ℕ × ℕ)
unfolding plan_call add_plan
count_calls c [] = some (0, 0)
count_calls c (call ∷ calls) = add_plan (plan_call c call) (count_calls c calls)

-- `pnlItem`, `relatedItem` and `tokenItem`
unfoldable pub stage_item : {Out : Type 0} → Client → Str → List (Call Out) → Option PlanItem
unfolding count_calls plan_item_from_call with_cached
stage_item c path calls = do
  (total, cached) ← count_calls c calls
  some (with_cached (plan_item_from_call path total false (credit_cost path)) cached)

-- The last stage: the most that it can call.
unfoldable pub ceiling_item : {Out : Type 0} → Client → Str → List (Call Out) → Option PlanItem
unfolding count_calls
ceiling_item c path calls = do
  (total, cached) ← count_calls c calls
  some (record {
    endpoint = path;
    total = total;
    cached = cached;
    fresh = total - cached;
    cost_per_call = credit_cost path;
    upper_bound = true;
  })

module _ {W : Type 0} ⦃f : Float64 W⦄ (order : MapOrder) (requests : Requests W) {Out : Type 0}
    (ohlcv : Str → Str → Call Out) where
  -- The stages after the seed, over the wallets and tokens that it implies. The stages range over maps,
  -- whose order does not matter to a count.
  unfoldable pub plan_stages :
      Client
      → Dict Str (WalletAgg W)
      → Dict Str TokenAgg
      → Dict Str (List (Buy W))
      → Option (List PlanItem)
  unfolding stage_item ceiling_item
  plan_stages c wallets tokens buys = do
    pnl ← stage_item c path_profiler_pnl_summary (map (λ kv. requests.pnl kv.0) wallets)
    related ←
        stage_item c path_profiler_related_wallets
          (fold (λ calls kv. calls ++ map (requests.related kv.0) kv.1.chains) [] wallets)
    flow ←
        stage_item c path_tgm_flow_intelligence
          (map (λ kv. requests.flow kv.1.chain kv.1.address) tokens)
    info ←
        stage_item c path_tgm_token_information
          (map (λ kv. requests.info kv.1.chain kv.1.address) tokens)
    move ← ceiling_item c path_tgm_token_ohlcv (
        map (λ kv. ohlcv kv.1.chain kv.1.address)
          (select (λ kv. not (length (lookup_or kv.0 [] buys) == 0)) tokens))
    some (pnl ∷ related ∷ flow ∷ info ∷ move ∷ [])

  -- The plan after the seed is read, with the limited universe of a seed.
  unfoldable pub plan_from :
      ParseTime
      → ℕ
      → PlanItem
      → Client × Outcome (List (DexTrade W))
      → Client × Option (List PlanItem)
  unfolding derive_universe limit_universe seed_buys plan_stages
  plan_from parse max_wallets item (c, failed e) = (c, none)
  plan_from parse max_wallets item (c, done hit seed) =
      let (wallets, tokens) = derive_universe parse seed in
      let (kept, kept_tokens) = limit_universe order wallets tokens max_wallets in
      (c, plan_stages c kept kept_tokens (seed_buys seed) >>= λ items. some (item ∷ items))

  -- The whole of `Plan`: the line of the seed alone where the seed is not in the cache, and no items on
  -- an error.
  unfoldable pub plan :
      World → ParseTime → Call (List (DexTrade W)) → ℕ → Client → Client × Option (List PlanItem)
  unfolding plan_call do_call plan_from plan_item_from_call
  plan w parse seed_call max_wallets c = elim (plan_call c seed_call) [
    | none ↦ (c, none)
    | some seed_plan ↦
        let seed_item =
          plan_item_from_call path_smart_money_dex_trades 1 seed_plan.cache_hit
            seed_plan.credits_cost in
        if not seed_plan.cache_hit
        then (c, some (seed_item ∷ []))
        else plan_from parse max_wallets seed_item (do_call w seed_call c)
  ]

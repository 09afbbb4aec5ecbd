-- ===== src/Pipeline/Plan/Free.antt =====
-- internal/pipeline/plan.go: a dry run sends nothing, and its counts are those of the cache.
use mathlib.Core.Option.{some-injective}
use smart_money_falsifier.Base.{
  ℕ, suc, ◌+◌, ◌*◌, ◌≡◌, refl, sym, ap, ◌∙◌, inl, inr, Bool, Bool-cases, Option-cases, true, false,
  not, Option, none, some, List, [], ◌∷◌, if◌then◌else◌, ◌||◌, ◌⊎◌, any, str_eq, length, select,
  Str, str_key, lookup, MapOrder, arith,
}
use smart_money_falsifier.Float.{Float64}
use smart_money_falsifier.Nansen.Endpoints.{credit_cost}
use smart_money_falsifier.Nansen.Client.{
  World, Client, Call, Plan, Outcome, done, failed, do_call, has, plan_call,
}
use smart_money_falsifier.Nansen.Client.Calls.{do_call-cached}
use smart_money_falsifier.Pipeline.Universe.{DexTrade, ParseTime}
use smart_money_falsifier.Pipeline.Workers.{Requests}
use smart_money_falsifier.Pipeline.Plan.{
  PlanItem, add_plan, count_calls, stage_item, new_credits_estimate, plan_from, plan, with_cached,
  plan_item_from_call,
}

counted :
    (p : Option Plan) (rest : Option (ℕ × ℕ)) (total cached : ℕ)
    → add_plan p rest ≡ some (total, cached)
    → (q : Plan) × (t : ℕ) × (k : ℕ) × (p ≡ some q)
      × (rest ≡ some (t, k))
      × (total ≡ suc t)
      × (cached ≡ (if q.cache_hit then suc k else k))
unfolding add_plan
counted none rest total cached h = absurd (ground (arith, h))
counted (some q) none total cached h = absurd (ground (arith, h))
counted (some q) (some (t, k)) total cached h =
    (q, t, k, refl, refl, ground (arith, h), ground (arith, h))

module _ {Out : Type 0} (c : Client) where
  -- A call that has no file in the client's cache.
  abbrev pub is_fresh : Call Out → Bool
  is_fresh call = elim call.key [
    | none ↦ false
    | some key ↦ not (has (lookup key c.cache) || any (str_eq key) c.unreadable)
  ]

  planned :
      (call : Call Out) (p : Plan) → plan_call c call ≡ some p → is_fresh call ≡ not p.cache_hit
  unfolding plan_call
  planned call p h = elim (Option-cases call.key) [
    | inl q ↦ ground (arith, h, q)
    | inr (key, q) ↦ ground (arith, h, q)
  ]

  count_calls_lem :
      (calls : List (Call Out)) (total cached : ℕ)
      → count_calls c calls ≡ some (total, cached)
      → (total ≡ length calls) × (cached + length (select is_fresh calls) ≡ total)
  unfolding count_calls
  count_calls_lem [] total cached h = ground (arith, h)
  count_calls_lem (call ∷ calls) total cached h =
      let (p, t, k, e, r, et, ek) =
        counted (plan_call c call) (count_calls c calls) total cached h in
      let (all, split) = count_calls_lem calls t k r in
      let fresh = planned call p e in
      (
        omega (arith, et, all),
        elim (Bool-cases p.cache_hit) [
          | inl b ↦ ground (arith, et, ek, split, fresh, b)
          | inr b ↦ ground (arith, et, ek, split, fresh, b)
        ],
      )

  stage_item_is :
      (path : Str) (calls : List (Call Out)) (total cached : ℕ)
      → count_calls c calls ≡ some (total, cached)
      → stage_item c path calls
        ≡ some (with_cached (plan_item_from_call path total false (credit_cost path)) cached)
  unfolding stage_item
  stage_item_is path calls total cached q = rw (stage_item, q) refl

  -- A stage's estimate is what its calls that are not in the cache cost, one by one, at the price of
  -- the endpoint; and what is cached and what is not add up to all its calls.
  pub stage_item-estimate :
      (path : Str) (calls : List (Call Out)) (item : PlanItem)
      → stage_item c path calls ≡ some item
      → (new_credits_estimate item ≡ length (select is_fresh calls) * credit_cost path)
        × (item.cached + item.fresh ≡ length calls)
  unfolding stage_item new_credits_estimate with_cached plan_item_from_call
  stage_item-estimate path calls item h = elim (Option-cases (count_calls c calls)) [
    | inl q ↦ absurd (ground (arith, h, q))
    | inr ((total, cached), q) ↦
        let (all, split) = count_calls_lem calls total cached q in
        let e = some-injective _ item (sym (stage_item_is path calls total cached q) ∙ h) in
        let fresh = ap (λ i. i.fresh) e in
        let cost = ap (λ i. i.cost_per_call) e in
        let kept = ap (λ i. i.cached) e in
        let count : item.fresh ≡ length (select is_fresh calls) = omega (arith, fresh, split) in
        (
          ap (λ n. n * item.cost_per_call) count
              ∙ ap (λ k. length (select is_fresh calls) * k) (sym cost),
          omega (arith, count, kept, split, all),
        )
  ]

module _ {W : Type 0} ⦃f : Float64 W⦄ (order : MapOrder) (requests : Requests W) {Out : Type 0}
    (ohlcv : Str → Str → Call Out) where
  plan_from-client :
      (parse : ParseTime) (max : ℕ) (item : PlanItem) (x : Client × Outcome (List (DexTrade W)))
      → (plan_from order requests ohlcv parse max item x).0 ≡ x.0
  unfolding plan_from
  plan_from-client parse max item (c, failed e) = refl
  plan_from-client parse max item (c, done hit seed) = refl

  unplanned :
      (c : Client) (call : Call (List (DexTrade W))) (p : Plan)
      → ((key : Str) → call.key ≡ some key → any (str_eq key) c.unreadable ≡ false)
      → plan_call c call ≡ some p
      → p.cache_hit ≡ true
      → (key : Str) × (raw : Str) × (call.key ≡ some key) × (lookup key c.cache ≡ some raw)
  unfolding plan_call
  unplanned c call p read h hit = elim (Option-cases call.key) [
    | inl q ↦ absurd (ground (arith, h, q))
    | inr (key, q) ↦ elim (Option-cases (lookup key c.cache)) [
      | inl m ↦ absurd (ground (arith, h, q, m, hit, read key q))
      | inr (raw, m) ↦ (key, raw, q, m)
    ]
  ]

  -- The client after a plan is the one before it, or the one after the call for the seed.
  pub plan-client :
      (w : World) (parse : ParseTime) (call : Call (List (DexTrade W))) (max : ℕ) (c : Client)
      → ((plan order requests ohlcv w parse call max c).0 ≡ c)
        ⊎ ((plan order requests ohlcv w parse call max c).0 ≡ (do_call w call c).0)
  unfolding plan
  plan-client w parse call max c = elim (Option-cases (plan_call c call)) [
    | inl q ↦ rw (plan, q) (inl refl)
    | inr (p, q) ↦ elim (Bool-cases p.cache_hit) [
      | inr b ↦ rw (plan, q, b) (inl refl)
      | inl b ↦ rw (plan, q, b, plan_from-client parse max) (inr refl)
    ]
  ]

  -- A dry run sends nothing, pays nothing and stores nothing, whatever is cached, unless the file of the
  -- seed's response is in the cache and cannot be read.
  pub plan-free :
      (w : World) (parse : ParseTime) (call : Call (List (DexTrade W))) (max : ℕ) (c : Client)
      → ((key : Str) → call.key ≡ some key → any (str_eq key) c.unreadable ≡ false)
      → ((plan order requests ohlcv w parse call max c).0.cache ≡ c.cache)
        × ((plan order requests ohlcv w parse call max c).0.sent ≡ c.sent)
        × ((plan order requests ohlcv w parse call max c).0.balance ≡ c.balance)
  unfolding plan
  plan-free w parse call max c read = elim (Option-cases (plan_call c call)) [
    | inl q ↦ rw (plan, q) (refl, refl, refl)
    | inr (p, q) ↦ elim (Bool-cases p.cache_hit) [
      | inr b ↦ rw (plan, q, b) (refl, refl, refl)
      | inl b ↦
          let (key, raw, keyed, stored) = unplanned c call p read q b in
          rw (plan, q, b, plan_from-client parse max) (do_call-cached w call c key raw keyed stored)
    ]
  ]

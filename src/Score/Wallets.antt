-- ===== src/Score/Wallets.antt =====
-- internal/score/score.go: the ranking of the wallets. Times are nanoseconds from the zero time, a
-- duration saturates at the ends of int64.
pub mod Bounds
use smart_money_falsifier.Base.{
  ℕ, zero, suc, ◌+◌, ◌-◌, ◌*◌, ◌/◌, ◌%◌, ◌^◌, Bool, true, false, not, ◌&&◌, ◌||◌, Option, none,
  some, List, [], ◌∷◌, ◌++◌, map, if◌then◌else◌, ltb, leb, ◌==◌, length, get_or, set, fold, any,
  Str, str_eq, str_lt, str_key, Dict, lookup_or, insert, values, enumerate, MapOrder, sort_by, ℤ,
  pos, negsuc, pos_part, neg_part, ltb_ℤ, ◌-ℤ◌,
}
use smart_money_falsifier.Float.{Float64}
use smart_money_falsifier.Score.Verdict.{fires}
use smart_money_falsifier.Score.Cluster.{Funder, BuyerInput, ClusterGroup, ClusterResult, cluster}

pub record WalletTokenTrade (W : Type 0) : Type 0 where
  pub token_key : Str
  pub trade_value_usd : W

pub record WalletInput (W : Type 0) : Type 0 where
  pub address : Str
  pub label : Str
  pub realized_pnl_usd : W
  pub win_rate : W
  pub funders : List Funder
  pub funder_checked : Bool
  pub last_trade_time : ℤ
  pub bought_tokens : List (WalletTokenTrade W)

pub record TokenInput (W : Type 0) : Type 0 where
  pub key : Str
  pub symbol : Str
  pub name : Str
  pub smart_trader_net_flow_usd : W
  pub exchange_net_flow_usd : W
  pub flow_available : Bool
  pub exchange_observed : Bool
  pub liquidity_usd : Option W

pub record WalletScore (W : Type 0) : Type 0 where
  pub address : Str
  pub label : Str
  pub score : W
  pub win_rate_norm : W
  pub pnl_norm : W
  pub recency_norm : W
  pub concentration_norm : W
  pub distribution_penalty : W
  pub cluster_penalty : W
  pub cluster_size : ℕ

-- The four normalised columns, one entry per wallet.
pub record Columns (W : Type 0) : Type 0 where
  pub win_rates : List W
  pub pnl : List W
  pub recency : List W
  pub concentration : List W

abbrev pub cluster_penalty_threshold : ℕ
cluster_penalty_threshold = 2

abbrev pub cluster_penalty_full_at : ℕ
cluster_penalty_full_at = 10

-- `ref.Sub(last)`
abbrev pub elapsed : ℤ → ℤ → ℤ
elapsed ref last =
    let d = ref -ℤ last in
    if ltb_ℤ (pos (2 ^ 63 - 1)) d
    then pos (2 ^ 63 - 1)
    else if ltb_ℤ d (negsuc (2 ^ 63 - 1))
    then negsuc (2 ^ 63 - 1)
    else d

abbrev pub hour : ℕ
hour = 3_600_000_000_000

module _ {W : Type 0} ⦃f : Float64 W⦄ where
  unfoldable pub clamp01 : W → W
  clamp01 v =
      if not (f.eq v v)
      then f.zero
      else if f.lt v f.zero
      then f.zero
      else if f.lt f.one v
      then f.one
      else v

  unfoldable pub signed_log1p : W → W
  signed_log1p v = if f.le f.zero v then f.log1p v else f.neg (f.log1p (f.neg v))

  -- `distributing`: a token that is not in the map does not distribute.
  unfoldable pub distributing_tokens : List (TokenInput W) → Dict Str Bool
  unfolding fires
  distributing_tokens tokens =
      fold
        (λ d t.
          insert t.key (fires t.smart_trader_net_flow_usd t.exchange_net_flow_usd t.flow_available)
            d)
        [] tokens

  unfoldable pub add_trade : Dict Str Bool → W × W → WalletTokenTrade W → W × W
  add_trade distributing (total, flagged) b = (
    f.add total b.trade_value_usd,
    if lookup_or b.token_key false distributing then f.add flagged b.trade_value_usd else flagged,
  )

  unfoldable pub distribution_penalty : List (WalletTokenTrade W) → Dict Str Bool → W
  unfolding add_trade
  distribution_penalty bought distributing =
      let (total, flagged) = fold (add_trade distributing) (f.zero, f.zero) bought in
      if f.le total f.zero then f.zero else f.div flagged total

  unfoldable pub cluster_penalty_for : ℕ → W
  cluster_penalty_for size =
      let span = f.of_nat (cluster_penalty_full_at - cluster_penalty_threshold) in
      let frac = f.div (f.of_nat (size - cluster_penalty_threshold)) span in
      if leb size cluster_penalty_threshold then f.zero else if f.lt f.one frac then f.one else frac

  -- `Duration.Hours`
  unfoldable pub hours : ℤ → W
  hours (pos n) = f.add (f.of_nat (n / hour)) (f.div (f.of_nat (n % hour)) (f.of_nat hour))
  hours (negsuc n) =
      f.add (f.neg (f.of_nat (suc n / hour)))
        (f.div (f.neg (f.of_nat (suc n % hour))) (f.of_nat hour))

  unfoldable pub recency_raw : ℤ → ℤ → W
  unfolding hours
  recency_raw last ref =
      let age = hours (elapsed ref last) in
      if pos_part last == 0 && neg_part last == 0
      then f.neg_inf
      else f.neg (if f.lt age f.zero then f.zero else age)

  -- `byToken`
  unfoldable pub by_token : List (WalletTokenTrade W) → Dict Str W
  by_token bought =
      fold (λ m b. insert b.token_key (f.add (lookup_or b.token_key f.zero m) b.trade_value_usd) m)
        [] bought

  unfoldable pub concentration_raw : MapOrder → ℕ → List (WalletTokenTrade W) → W
  unfolding by_token
  concentration_raw order at [] = f.zero
  concentration_raw order at (t ∷ ts) =
      let bought = t ∷ ts in
      let total = fold (λ s b. f.add s b.trade_value_usd) f.zero bought in
      if f.le total f.zero
      then f.zero
      else fold (λ hhi kv. f.add hhi (f.mul (f.div kv.1 total) (f.div kv.1 total))) f.zero
          (order.shuffle (Str × W) at (by_token bought))

  -- `math.IsInf(v, -1)`
  abbrev pub is_neg_inf : W → Bool
  is_neg_inf v = f.eq v f.neg_inf

  abbrev pub rank_less : ℕ × W → ℕ × W → Bool
  rank_less a b =
      if (is_neg_inf a.1 && not (is_neg_inf b.1)) || (not (is_neg_inf a.1) && is_neg_inf b.1)
      then is_neg_inf a.1
      else f.lt a.1 b.1

  -- How many more of the entries have the value `v`: the inner loop's `j - i`.
  unfoldable pub tied : W → List (ℕ × W) → ℕ
  tied v [] = 0
  tied v (e ∷ es) = let more = tied v es in if f.eq e.1 v then suc more else 0

  -- `out[sorted[k].i] = avgRank / float64(n-1)`, for each of the `count` first entries
  unfoldable pub assign : W → ℕ → List (ℕ × W) → List W → List W
  assign rank zero es out = out
  assign rank (suc count) [] out = out
  assign rank (suc count) (e ∷ es) out = assign rank count es (set out e.0 rank)

  -- The outer loop from `i` on: `skip` entries are of a group that has its rank.
  unfoldable pub ranks : ℕ → ℕ → ℕ → List (ℕ × W) → List W → List W
  unfolding tied assign
  ranks n i skip [] out = out
  ranks n i (suc skip) (e ∷ es) out = ranks n (suc i) skip es out
  ranks n i zero (e ∷ es) out =
      let more = tied e.1 es in
      let rank = f.div (f.div (f.of_nat (i + (i + more))) (f.of_nat 2)) (f.of_nat (n - 1)) in
      ranks n (suc i) more es (assign rank (suc more) (e ∷ es) out)

  unfoldable pub all_equal : List (ℕ × W) → Bool
  all_equal [] = true
  all_equal (e ∷ es) = not (any (λ x. not (f.eq x.1 e.1)) es)

  unfoldable pub rank_normalize : List W → List W
  unfolding all_equal ranks
  rank_normalize vals =
      let n = length vals in
      let sorted = sort_by rank_less (enumerate vals) in
      if n == 0
      then []
      else if n == 1 || all_equal sorted
      then map (λ v. f.ratio 5 10) vals
      else ranks n 0 0 sorted (map (λ v. f.zero) vals)

  -- `clusterSize`
  unfoldable pub cluster_sizes : MapOrder → List (WalletInput W) → Dict Str ℕ
  unfolding cluster
  cluster_sizes order wallets =
      let buyers =
        map
          (λ w. record {
            address = w.address;
            label = w.label;
            pnl_usd = f.zero;
            win_rate = f.zero;
            funders = w.funders;
            funder_checked = false;
          })
          wallets in
      fold (λ sizes c. fold (λ s m. insert m.address (length c.members) s) sizes c.members) []
        (cluster order buyers).clusters

  unfoldable pub columns : MapOrder → List (WalletInput W) → ℤ → Columns W
  unfolding clamp01 signed_log1p recency_raw concentration_raw rank_normalize
  columns order wallets ref = record {
    win_rates = rank_normalize (map (λ w. clamp01 w.win_rate) wallets);
    pnl = rank_normalize (map (λ w. signed_log1p w.realized_pnl_usd) wallets);
    recency = rank_normalize (map (λ w. recency_raw w.last_trade_time ref) wallets);
    concentration =
        rank_normalize
          (map (λ iw. concentration_raw order iw.0 iw.1.bought_tokens) (enumerate wallets));
  }

  -- The weighted sum, less the two penalties.
  abbrev pub raw_score : W → W → W → W → W → W → W
  raw_score win pnl recency concentration dist_penalty cluster_penalty =
      f.sub
        (f.sub
          (f.add
            (f.add (f.add (f.mul (f.ratio 45 100) win) (f.mul (f.ratio 30 100) pnl))
              (f.mul (f.ratio 125 1000) recency))
            (f.mul (f.ratio 125 1000) concentration))
          dist_penalty)
        cluster_penalty

  unfoldable pub score_one :
      Dict Str Bool → Dict Str ℕ → Columns W → ℕ × WalletInput W → WalletScore W
  unfolding distribution_penalty cluster_penalty_for clamp01
  score_one distributing sizes norms (i, w) =
      let dist_penalty =
        f.mul (distribution_penalty w.bought_tokens distributing) (f.ratio 15 100) in
      let size = lookup_or w.address 0 sizes in
      let cluster_penalty = f.mul (cluster_penalty_for size) (f.ratio 10 100) in
      let win = get_or norms.win_rates i f.zero in
      let pnl = get_or norms.pnl i f.zero in
      let recency = get_or norms.recency i f.zero in
      let concentration = get_or norms.concentration i f.zero in
      record {
        address = w.address;
        label = w.label;
        score = clamp01 (raw_score win pnl recency concentration dist_penalty cluster_penalty);
        win_rate_norm = win;
        pnl_norm = pnl;
        recency_norm = recency;
        concentration_norm = concentration;
        distribution_penalty = dist_penalty;
        cluster_penalty = cluster_penalty;
        cluster_size = size;
      }

  -- The highest score first, then by address.
  abbrev pub score_less : WalletScore W → WalletScore W → Bool
  score_less a b =
      if not (f.eq a.score b.score) then f.lt b.score a.score else str_lt a.address b.address

  unfoldable pub score_wallets :
      MapOrder → List (WalletInput W) → List (TokenInput W) → ℤ → List (WalletScore W)
  unfolding distributing_tokens cluster_sizes columns score_one
  score_wallets order wallets tokens ref =
      let distributing = distributing_tokens tokens in
      let sizes = cluster_sizes order wallets in
      let norms = columns order wallets ref in
      sort_by score_less (map (score_one distributing sizes norms) (enumerate wallets))

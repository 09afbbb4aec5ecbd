-- ===== src/Pipeline/Tests.antt =====
-- Runs of the pipeline on small inputs, and the theorems at such inputs.
use smart_money_falsifier.Base.{
  Bool, suc, ap, IsOrderedBy, keys, ℕ, ◌+◌, ◌*◌, ◌≤◌, ◌≡◌, ◌≢◌, ◌↔◌, refl, true, false, ◌||◌, ◌==◌,
  if◌then◌else◌, arith, none, some, List, [], ◌∷◌, map, select, length, Str, str, str_eq, str_key,
  lookup, in_order, backwards, pos, negsuc, Distinct, all_apart-Distinct, Permᴰ, Dict,
}
use smart_money_falsifier.Float.Whole.{Whole, whole, whole_float}
use smart_money_falsifier.Score.Verdict.{confirmed}
use smart_money_falsifier.Score.Cluster.{BuyerInput}
use smart_money_falsifier.Score.Cluster.Links.{Linked, addresses}
use smart_money_falsifier.Nansen.Endpoints.{credit_cost, path_profiler_related_wallets}
use smart_money_falsifier.Nansen.Client.{
  World, Client, Call, network_error, plan_call, do_call, miss, live, do_http, attempts, round,
  answer, give_back, log_attempt,
}
use smart_money_falsifier.Nansen.Budget.{reserve_credits}
use smart_money_falsifier.Pipeline.Floor.Laws.{IsClearing, IsShared, floored, not-IsClearing_below}
use smart_money_falsifier.Pipeline.Universe.{WalletAgg, TokenAgg, DexTrade}
use smart_money_falsifier.Pipeline.Assemble.{
  wallet_input, TokenReport, WalletEnrichment, TokenEnrichment, token_reports,
}
use smart_money_falsifier.Pipeline.Assemble.Reported.{IsBefore, token_reports-IsOrderedBy}
use smart_money_falsifier.Pipeline.Assemble.Judged.{
  judge, IsClean, confirmed_iff, judge-IsShared, judge_order,
}
use smart_money_falsifier.Pipeline.Workers.{Shared, Requests, run_pool, enrich, fetch_related}
use smart_money_falsifier.Pipeline.Workers.Cancelled.{run_pool-complete, enrich-cancelled}
use smart_money_falsifier.Pipeline.Run.{OhlcvCandle, attach_moves}
use smart_money_falsifier.Pipeline.Run.Moves.{unpriced, attach_moves-unpriced}
use smart_money_falsifier.Nansen.Cache.{JsonText}
use smart_money_falsifier.Pipeline.Api.{
  Request, flow, info, request_key, default_date_from, default_date_to,
}
use smart_money_falsifier.Pipeline.Api.Cuts.{Delimits}
use smart_money_falsifier.Pipeline.Api.Keys.{AsksAscii, request_key-apart}
use smart_money_falsifier.Pipeline.Plan.{PlanItem, plan, stage_item, new_credits_estimate}
use smart_money_falsifier.Pipeline.Plan.Free.{is_fresh, plan-free, stage_item-estimate}

abbrev buyer_of : Str → List Str → BuyerInput Whole
buyer_of a fs = record {
  address = a;
  label = [];
  pnl_usd = whole (pos 0);
  win_rate = whole (pos 0);
  funders = map (λ x. record { address = x; label = [] }) fs;
  funder_checked = true;
}

abbrev four : List (BuyerInput Whole)
four =
    buyer_of (str "a") (str "x" ∷ [])
    ∷ buyer_of (str "b") (str "y" ∷ [])
    ∷ buyer_of (str "c") []
    ∷ buyer_of (str "d") (str "z" ∷ [])
    ∷ []

four-Distinct : Distinct (addresses four)
unfolding str str_eq
four-Distinct = all_apart-Distinct (addresses four) refl

abbrev usd : ℕ → Whole
usd n = whole (pos n)

confirmed_iff_example :
    (judge in_order four (usd 5) (usd 0) true (usd 2000) (usd 1000) ≡ confirmed)
    ↔ IsClean four (usd 5) (usd 0) true (usd 2000) (usd 1000)
confirmed_iff_example =
    confirmed_iff in_order four (usd 5) (usd 0) true (usd 2000) (usd 1000) four-Distinct

judge-IsShared_example :
    IsShared (judge in_order four (usd 5) (usd 0) true (usd 10) (usd 1000))
    ↔ ((3 ≤ length four) × ((i : ℕ) × (j : ℕ) × Linked four i j × (i ≢ j)))
judge-IsShared_example =
    judge-IsShared in_order four (usd 5) (usd 0) true (usd 10) (usd 1000) four-Distinct

judge_order_example :
    judge in_order four (usd 5) (usd 7) true (usd 10) (usd 1000)
    ≡ judge backwards four (usd 5) (usd 7) true (usd 10) (usd 1000)
judge_order_example =
    judge_order in_order backwards four (usd 5) (usd 7) true (usd 10) (usd 1000) four-Distinct

not-IsClearing_below_example :
    ¬ IsClearing (floored 4 4 4 (usd 5) (usd 0) true (usd 156) (usd 1000))
not-IsClearing_below_example =
    not-IsClearing_below 4 4 4 (usd 5) (usd 0) true (usd 156) (usd 1000) refl

abbrev silent : World
silent = record {
  reply = λ k. network_error;
  backoff_cancelled = λ k. false;
  limiter_cancelled = λ k. false;
  put_fails = λ key. false;
  until = λ v. none;
}

abbrev fresh_client : Client
fresh_client = record {
  balance = record { credit_floor = pos 100; credits_remaining = negsuc 0 };
  allow_expensive = false;
  offline = false;
  max_retries = 3;
  unreadable = [];
  logging = true;
  log = [];
  cache = [];
  clock = 0;
  sent = 0;
}

abbrev ask : {Out : Type 0} → Str → Str → Call Out
ask path addr = record { path = path; key = some addr; decode = λ s. none }

abbrev asks : Requests Whole
asks = record {
  pnl = λ a. ask (str "pnl") a;
  related = λ a chain. ask (str "related") a;
  flow = λ chain a. ask (str "flow") a;
  info = λ chain a. ask (str "info") a;
}

abbrev agg_of : Str → WalletAgg Whole
agg_of a = record {
  address = a;
  label = [];
  last_trade = pos 0;
  bought_tokens = [];
  chains = str "base" ∷ [];
}

abbrev shared_state : Shared Whole
shared_state = record {
  client = fresh_client;
  wallets = [];
  tokens = [];
  failures = [];
  reports = [];
}

run_pool-complete_example :
    Permᴰ
      (run_pool backwards
        (λ k. false)
        (fetch_related silent asks)
        (str "a|base" ∷ str "b|base" ∷ [])
        shared_state).1
      (str "a|base" ∷ str "b|base" ∷ [])
run_pool-complete_example =
    run_pool-complete backwards (λ k. false) (fetch_related silent asks)
      (str "a|base" ∷ str "b|base" ∷ []) shared_state (λ k. refl)

abbrev one_wallet : Dict Str (WalletAgg Whole)
one_wallet = (str "a", agg_of (str "a")) ∷ []

abbrev interrupted : Shared Whole
interrupted = enrich silent asks in_order (λ stage k. true) one_wallet [] fresh_client

a_found : lookup (str "a") one_wallet ≡ some (agg_of (str "a"))
unfolding lookup str str_eq
a_found = refl

enrich-cancelled_example :
    (interrupted.client ≡ fresh_client)
    × (interrupted.failures ≡ [])
    × ((wallet_input
          (str "a")
          (agg_of (str "a"))
          (lookup (str "a") interrupted.wallets)).funder_checked
        ≡ true)
    × ((wallet_input (str "a") (agg_of (str "a")) (lookup (str "a") interrupted.wallets)).funders
        ≡ [])
enrich-cancelled_example =
    enrich-cancelled silent asks in_order (λ stage k. true) one_wallet [] fresh_client (str "a")
      (agg_of (str "a")) (λ stage. refl) a_found

abbrev seed_call : Call (List (DexTrade Whole))
seed_call = record {
  path = str "smart-money/dex-trades";
  key = some (str "seed");
  decode = λ s. some [];
}

abbrev seeded : Client
seeded = record fresh_client { cache = (str "seed", str "{}") ∷ [] }

abbrev ask_ohlcv : Str → Str → Call (List Whole)
ask_ohlcv chain a = ask (str "ohlcv") a

plan-free_example :
    ((plan in_order asks ask_ohlcv silent (λ s. none) seed_call 0 seeded).0.cache ≡ seeded.cache)
    × ((plan in_order asks ask_ohlcv silent (λ s. none) seed_call 0 seeded).0.sent ≡ seeded.sent)
    × ((plan in_order asks ask_ohlcv silent (λ s. none) seed_call 0 seeded).0.balance
        ≡ seeded.balance)
plan-free_example =
    plan-free in_order asks ask_ohlcv silent (λ s. none) seed_call 0 seeded (λ key q. refl)

-- The seed's file is in the cache and cannot be read: the plan finds it there, and asks for it online.
abbrev locked : Client
locked = record fresh_client { unreadable = str "seed" ∷ []; allow_expensive = true }

locked_runs :
    (plan in_order asks ask_ohlcv silent (λ s. none) seed_call 0 locked).0.sent
    ≡ suc locked.max_retries
unfolding plan plan_call do_call miss live do_http attempts round answer give_back log_attempt
    lookup reserve_credits credit_cost str str_eq
locked_runs = refl

abbrev two_calls : List (Call (List Whole))
two_calls =
    ask path_profiler_related_wallets (str "a") ∷ ask path_profiler_related_wallets (str "b") ∷ []

abbrev two_item : PlanItem
two_item = record {
  endpoint = path_profiler_related_wallets;
  total = 2;
  cached = 0;
  fresh = 2;
  cost_per_call = credit_cost (path_profiler_related_wallets);
  upper_bound = false;
}

two_planned : stage_item fresh_client (path_profiler_related_wallets) two_calls ≡ some two_item
unfolding stage_item lookup
two_planned = refl

stage_item-estimate_example :
    (new_credits_estimate two_item
      ≡ length (select (is_fresh fresh_client) two_calls)
        * credit_cost (path_profiler_related_wallets))
    × (two_item.cached + two_item.fresh ≡ length two_calls)
stage_item-estimate_example =
    stage_item-estimate fresh_client (path_profiler_related_wallets) two_calls two_item two_planned

abbrev report : TokenReport Whole
report = record {
  key = str "base:t";
  chain = str "base";
  address = str "t";
  symbol = str "T";
  name = [];
  verdict = confirmed;
  n = 4;
  m = 4;
  covered = 4;
  smart_trader_net_flow_usd = usd 5;
  exchange_net_flow_usd = usd 0;
  flow_available = true;
  exchange_observed = true;
  smart_bought_usd = usd 2000;
  move = none;
  liquidity_usd = none;
  clusters = [];
}

abbrev trade : DexTrade Whole
trade = record {
  chain = str "base";
  block_timestamp = [];
  trader_address = str "a";
  trader_address_label = [];
  token_bought_address = str "t";
  token_sold_address = [];
  token_bought_amount = usd 4;
  token_bought_symbol = str "T";
  token_sold_symbol = [];
  trade_value_usd = usd 8;
}

-- The prices of a token, from a client that has them in its cache.
abbrev prices : Str → Str → Call (List (OhlcvCandle Whole))
prices chain a = record {
  path = str "tgm/token-ohlcv";
  key = some a;
  decode =
      λ s. some (record { interval_start = []; high = some (usd 9); close = some (usd 3) } ∷ []);
}

abbrev reported : Shared Whole
reported = record shared_state {
  client = record fresh_client { cache = (str "t", str "{}") ∷ [] };
  reports = report ∷ [];
}

attach_moves-unpriced_example :
    map unpriced (attach_moves silent prices in_order (λ k. false) (trade ∷ []) reported).reports
    ≡ map unpriced reported.reports
attach_moves-unpriced_example =
    attach_moves-unpriced silent prices in_order (λ k. false) (trade ∷ []) reported

-- Strings in quotes, a byte for a mark before a quote and before itself.
quoted : Str → Str
quoted [] = b'"' ∷ []
quoted (c ∷ s) = if c == b'"' || c == b'\\' then b'\\' ∷ c ∷ quoted s else c ∷ quoted s

abbrev json : JsonText
json = record { of_number = λ n. n ∷ []; quote = quoted }

json-Delimits : Delimits json
unfolding quoted
json-Delimits [] [] u v p q e = ground (arith, e)
json-Delimits [] (c ∷ t) u v p q e = ground (arith, e)
json-Delimits (c ∷ s) [] u v p q e = ground (arith, e)
json-Delimits (c ∷ s) (d ∷ t) u v p q e = ground (arith, e, json-Delimits s t u v p.1 q.1)

abbrev flows_of : Request
flows_of = flow (str "eth") (str "0x1")

abbrev info_of : Request
info_of = info (str "eth") (str "0x1")

abbrev is_flow : Request → Bool
is_flow (flow a b) = true
is_flow _ = false

flows_of-AsksAscii : AsksAscii flows_of
unfolding str
flows_of-AsksAscii = ground arith

info_of-AsksAscii : AsksAscii info_of
unfolding str
info_of-AsksAscii = ground arith

flows_of-ne-info_of : flows_of ≢ info_of
flows_of-ne-info_of e = absurd (ground (arith, ap is_flow e))

-- The flows and the information of one token have the same body, at two endpoints.
request_key-apart_example :
    request_key json (λ s. s) default_date_from default_date_to flows_of
    ≢ request_key json (λ s. s) default_date_from default_date_to info_of
request_key-apart_example =
    request_key-apart json default_date_from default_date_to json-Delimits (λ s. s) flows_of info_of
      (λ s t e. e) flows_of-AsksAscii info_of-AsksAscii flows_of-ne-info_of

abbrev token_of : Str → TokenAgg
token_of a = record { chain = str "base"; address = a; seed_symbol = [] }

abbrev two_tokens : Dict Str TokenAgg
two_tokens = (str "base:t", token_of (str "t")) ∷ (str "base:u", token_of (str "u")) ∷ []

abbrev buyer_agg : WalletAgg Whole
buyer_agg = record (agg_of (str "a")) {
  bought_tokens = record { token_key = str "base:t"; trade_value_usd = usd 8 } ∷ [];
}

abbrev one_buyer : Dict Str (WalletAgg Whole)
one_buyer = (str "a", buyer_agg) ∷ []

abbrev no_wallet_results : Dict Str (WalletEnrichment Whole)
no_wallet_results = []

abbrev no_token_results : Dict Str (TokenEnrichment Whole)
no_token_results = []

token_reports-IsOrderedBy_example :
    let reports =
      token_reports backwards (usd 1000) one_buyer two_tokens no_wallet_results no_token_results in
    Permᴰ (map (λ r. r.key) reports) (keys two_tokens) × IsOrderedBy IsBefore reports
token_reports-IsOrderedBy_example =
    token_reports-IsOrderedBy backwards (usd 1000) one_buyer two_tokens no_wallet_results
      no_token_results

-- ===== src/Pipeline/Run/Offline.antt =====
-- internal/pipeline/pipeline.go: Run with an offline client.
use smart_money_falsifier.Base.{
  ℕ, Bool, inl, inr, Option-cases, List, map, Str, str_key, Dict, lookup_or, MapOrder,
}
use smart_money_falsifier.Float.{Float64}
use smart_money_falsifier.Nansen.Budget.{Balance}
use smart_money_falsifier.Nansen.Client.{World, Client, Call, do_call}
use smart_money_falsifier.Nansen.Client.Quiet.{Quiet, do_call-Quiet, Outcome-cases}
use smart_money_falsifier.Score.Move.{Buy}
use smart_money_falsifier.Pipeline.Universe.{
  DexTrade, ParseTime, derive_universe, limit_universe, seed_buys,
}
use smart_money_falsifier.Pipeline.Assemble.{token_reports}
use smart_money_falsifier.Pipeline.Workers.{Shared, Requests, enrich}
use smart_money_falsifier.Pipeline.Workers.Offline.{IsQuiet, run_pool_inv, enrich-IsQuiet}
use smart_money_falsifier.Pipeline.Run.{
  OhlcvCandle, nth, fetch_move, attach_moves, to_price, run_from, run,
}

module _ {W : Type 0} ⦃f : Float64 W⦄ (w : World) (requests : Requests W)
    (ohlcv : Str → Str → Call (List (OhlcvCandle W))) (n : ℕ) (b : Balance) (m : Dict Str Str) where
  fetch_move-IsQuiet :
      (buys : Dict Str (List (Buy W))) (idx : Dict Str ℕ) (s : Shared W) (k : Str)
      → IsQuiet w requests n b m s
      → IsQuiet w requests n b m (fetch_move w ohlcv buys idx s k)
  unfolding fetch_move
  fetch_move-IsQuiet buys idx s k q = elim (Option-cases (nth s.reports (lookup_or k 0 idx))) [
    | inl e ↦ rw (fetch_move, e) q
    | inr (tr, e) ↦
        let r = do_call-Quiet w (ohlcv tr.chain tr.address) s.client q in
        elim (Outcome-cases (do_call w (ohlcv tr.chain tr.address) s.client).1) [
          | inl (x, o) ↦ rw (fetch_move, e, o) r
          | inr (cached, rows, o) ↦ rw (fetch_move, e, o) r
        ]
  ]

  attach_moves-IsQuiet :
      (order : MapOrder) (cancelled : ℕ → Bool) (seed : List (DexTrade W)) (s : Shared W)
      → IsQuiet w requests n b m s
      → IsQuiet w requests n b m (attach_moves w ohlcv order cancelled seed s)
  unfolding attach_moves
  attach_moves-IsQuiet order cancelled seed s q =
      let buys = seed_buys seed in
      let priced = to_price buys s.reports in
      run_pool_inv (IsQuiet w requests n b m) (fetch_move w ohlcv buys _)
        (λ r k h. fetch_move-IsQuiet buys _ r k h) order cancelled (map (λ ir. ir.1.key) priced) s q

  module _ (order : MapOrder) (parse : ParseTime) where
    run_from-Quiet :
        (cancelled : ℕ → ℕ → Bool) (max : ℕ) (min_signal : W) (seed : List (DexTrade W))
        (c : Client)
        → Quiet n b m c
        → Quiet n b m (run_from w requests order parse ohlcv cancelled max min_signal seed c).0
    unfolding run_from
    run_from-Quiet cancelled max min_signal seed c q =
        let (all_wallets, all_tokens) = derive_universe parse seed in
        let (wallets, tokens) = limit_universe order all_wallets all_tokens max in
        let s = enrich w requests order cancelled wallets tokens c in
        let reports = token_reports order min_signal wallets tokens s.wallets s.tokens in
        attach_moves-IsQuiet order (cancelled 3) seed (record s { reports = reports })
          (enrich-IsQuiet w requests n b m order cancelled wallets tokens c q)

    -- An offline run sends nothing, pays nothing and stores nothing, whatever is cached and however it
    -- ends.
    pub run-Quiet :
        (seed_call : Call (List (DexTrade W))) (cancelled : ℕ → ℕ → Bool) (max : ℕ) (min_signal : W)
        (c : Client)
        → Quiet n b m c
        → Quiet n b m (run w requests order parse seed_call ohlcv cancelled max min_signal c).0
    unfolding run
    run-Quiet seed_call cancelled max min_signal c q =
        let r = do_call-Quiet w seed_call c q in
        elim (Outcome-cases (do_call w seed_call c).1) [
          | inl (x, o) ↦ rw (run, o) r
          | inr (cached, seed, o) ↦
              rw (run, o) (run_from-Quiet cancelled max min_signal seed (do_call w seed_call c).0 r)
        ]

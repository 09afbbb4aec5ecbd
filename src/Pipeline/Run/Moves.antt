-- ===== src/Pipeline/Run/Moves.antt =====
-- internal/pipeline/pipeline.go, attachMoves: what it changes of the reports.
use smart_money_falsifier.Base.{
  ℕ, zero, suc, ◌≡◌, lookup_or, refl, ap, ◌∙◌, inl, inr, Bool, Option, none, some, List, [], ◌∷◌,
  map, Option-cases, Str, str_key, Dict, MapOrder,
}
use smart_money_falsifier.Float.{Float64}
use smart_money_falsifier.Nansen.Client.{World, Call, do_call}
use smart_money_falsifier.Nansen.Client.Quiet.{Outcome-cases}
use smart_money_falsifier.Score.Move.{Buy, Move, compute_move}
use smart_money_falsifier.Pipeline.Universe.{DexTrade}
use smart_money_falsifier.Pipeline.Assemble.{TokenReport}
use smart_money_falsifier.Pipeline.Workers.{Shared}
use smart_money_falsifier.Pipeline.Workers.Offline.{run_pool_inv}
use smart_money_falsifier.Pipeline.Run.{
  OhlcvCandle, nth, set_move, fetch_move, attach_moves, candles_of,
}

-- A report less its move.
abbrev pub unpriced : {W : Type 0} → TokenReport W → TokenReport W
unpriced r = record r { move = none }

module _ {W : Type 0} ⦃f : Float64 W⦄ where
  set_move-unpriced :
      (i : ℕ) (m : Option (Move W)) (rs : List (TokenReport W))
      → map unpriced (set_move i m rs) ≡ map unpriced rs
  unfolding set_move
  set_move-unpriced i none rs = refl
  set_move-unpriced i (some m) [] = refl
  set_move-unpriced zero (some m) (r ∷ rs) = refl
  set_move-unpriced (suc i) (some m) (r ∷ rs) =
      ap (λ l. unpriced r ∷ l) (set_move-unpriced i (some m) rs)

  fetch_move-unpriced :
      (w : World) (ohlcv : Str → Str → Call (List (OhlcvCandle W))) (buys : Dict Str (List (Buy W)))
      (idx : Dict Str ℕ) (s : Shared W) (k : Str)
      → map unpriced (fetch_move w ohlcv buys idx s k).reports ≡ map unpriced s.reports
  unfolding fetch_move
  fetch_move-unpriced w ohlcv buys idx s k =
      elim (Option-cases (nth s.reports (lookup_or k 0 idx))) [
        | inl q ↦ rw (fetch_move, q) refl
        | inr (tr, q) ↦ elim (Outcome-cases (do_call w (ohlcv tr.chain tr.address) s.client).1) [
          | inl (e, o) ↦ rw (fetch_move, q, o) refl
          | inr (cached, rows, o) ↦
              rw (fetch_move, q, o)
                (set_move-unpriced (lookup_or k 0 idx)
                  (compute_move (lookup_or k [] buys) (candles_of rows)) s.reports)
        ]
      ]

  -- Pricing changes nothing of the reports but their moves: not their number, their order, their
  -- verdicts or their counts, whatever the answers are and in whatever order the workers finish.
  pub attach_moves-unpriced :
      (w : World) (ohlcv : Str → Str → Call (List (OhlcvCandle W))) (order : MapOrder)
      (cancelled : ℕ → Bool) (seed : List (DexTrade W)) (s : Shared W)
      → map unpriced (attach_moves w ohlcv order cancelled seed s).reports ≡ map unpriced s.reports
  unfolding attach_moves
  attach_moves-unpriced w ohlcv order cancelled seed s =
      run_pool_inv (λ r. map unpriced r.reports ≡ map unpriced s.reports) (fetch_move w ohlcv _ _)
        (λ r k h. fetch_move-unpriced w ohlcv _ _ r k ∙ h) order cancelled _ s refl

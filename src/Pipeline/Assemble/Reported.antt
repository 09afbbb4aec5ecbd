-- ===== src/Pipeline/Assemble/Reported.antt =====
-- internal/pipeline/pipeline.go, Run: which reports there are, and in which order.
use mathlib.Core.List.Permᴰ
use smart_money_falsifier.Base.{
  ℕ, ◌<◌, ◌⊎◌, inl, inr, Bool-cases, All-intro, IsOrderedBy, IsOrderedBy-sorted, ltb, arith, ◌≡◌,
  refl, ap, sym, subst, true, false, List, [], ◌∷◌, map, Permᴰ, keys, Str, str_lt, str_lt_irrefl,
  str_lt_trans, str_lt_total, str_key, Dict, lookup, lookup_or, MapOrder, sort_by, sort_by-perm,
  sort_by-IsSorted, arith,
}
use smart_money_falsifier.Float.{Float64}
use smart_money_falsifier.Score.Verdict.{
  Verdict, both, thin, concentrated, distributing, exit_only, confirmed, independent, unverified,
  weak,
}
use smart_money_falsifier.Pipeline.Floor.{verdict_severity}
use smart_money_falsifier.Pipeline.Universe.{WalletAgg, TokenAgg}
use smart_money_falsifier.Pipeline.Assemble.{
  TokenReport, WalletEnrichment, TokenEnrichment, report_less, token_report, token_reports,
  token_buyers, wallet_inputs, token_input,
}

-- How concerning a verdict is, the most concerning least: a funder shared by buyers while exchanges receive,
-- shared funders, the exit signal alone, and then what was checked and found clean, wholly, in part and
-- not at all.
abbrev pub concern : Verdict → ℕ
concern both = 0
concern thin = 1
concern concentrated = 2
concern distributing = 3
concern exit_only = 3
concern confirmed = 4
concern independent = 5
concern unverified = 6
concern weak = 7

severity-concern : (v : Verdict) → verdict_severity v ≡ concern v
unfolding verdict_severity
severity-concern v = ground arith

module _ {W : Type 0} ⦃f : Float64 W⦄ where
  report_less_asym : (a b : TokenReport W) → report_less a b ≡ true → report_less b a ≡ false
  report_less_asym a b h = grind (arith, h, str_lt_trans a.key b.key a.key, str_lt_irrefl a.key)

  not-report_less_trans :
      (a b c : TokenReport W)
      → report_less c b ≡ false
      → report_less b a ≡ false
      → report_less c a ≡ false
  not-report_less_trans a b c h k =
      grind (arith, h, k, str_lt_total a.key b.key, str_lt_trans c.key a.key b.key)

  token_report-key :
      (order : MapOrder) (min : W) (ws : List _) (addrs : List Str) (usd : W) (k : Str)
      (agg : TokenAgg) (ti : _)
      → (token_report order min ws addrs usd k agg ti).key ≡ k
  unfolding token_report
  token_report-key order min ws addrs usd k agg ti = refl

  map-keys :
      {A : Type 0} (g : Str × A → TokenReport W) (m : Dict Str A)
      → ((kv : Str × A) → (g kv).key ≡ kv.0)
      → map (λ r. r.key) (map g m) ≡ keys m
  map-keys g [] h = refl
  map-keys g (kv ∷ m) h = rw (h kv) (ap (λ ks. kv.0 ∷ ks) (map-keys g m h))

  -- The more concerning verdict first, then the token with more buyers, then the smaller key.
  abbrev pub IsBefore : TokenReport W → TokenReport W → Type 0
  IsBefore a b =
      (concern a.verdict < concern b.verdict)
      ⊎ ((concern a.verdict ≡ concern b.verdict)
          × ((b.n < a.n) ⊎ ((a.n ≡ b.n) × (str_lt b.key a.key ≡ false))))

  before : (a b : TokenReport W) → report_less b a ≡ false → IsBefore a b
  before a b h =
      let left = severity-concern a.verdict in
      let right = severity-concern b.verdict in
      elim (Bool-cases (ltb (concern a.verdict) (concern b.verdict))) [
        | inl t ↦ inl (ground (arith, t))
        | inr t ↦ inr (
          ground (arith, left, right, t, h),
          elim (Bool-cases (ltb b.n a.n)) [
            | inl u ↦ inl (ground (arith, u))
            | inr u ↦
                inr (ground (arith, left, right, t, u, h), ground (arith, left, right, t, u, h))
          ],
        )
      ]

  reports-IsOrderedBy :
      (report : Str × TokenAgg → TokenReport W) (ranged aggs : Dict Str TokenAgg)
      → ((kv : Str × TokenAgg) → (report kv).key ≡ kv.0)
      → Permᴰ ranged aggs
      → Permᴰ (map (λ r. r.key) (sort_by report_less (map report ranged))) (keys aggs)
        × IsOrderedBy IsBefore (sort_by report_less (map report ranged))
  reports-IsOrderedBy report ranged aggs h p = (
    Permᴰ.trans
        (Permᴰ.map (λ (r : TokenReport W). r.key) (sort_by-perm report_less (map report ranged)))
        (subst (λ l. Permᴰ l (keys aggs)) (sym (map-keys report ranged h))
          (Permᴰ.map (λ (kv : Str × TokenAgg). kv.0) p)),
    IsOrderedBy-sorted IsBefore (λ r. Unit) report_less (λ a b _ _. before a b)
        (sort_by report_less (map report ranged)) (All-intro _ (λ r m. tt))
        (sort_by-IsSorted report_less report_less_asym not-report_less_trans (map report ranged)),
  )

  -- For every order of the maps: there is a report for each token of the universe, one and no other, and
  -- the reports stand in order, the most concerning verdict first, then the token with the most buyers,
  -- then by key.
  pub token_reports-IsOrderedBy :
      (order : MapOrder) (min_signal_usd : W) (wallet_aggs : Dict Str (WalletAgg W))
      (token_aggs : Dict Str TokenAgg) (wallet_results : Dict Str (WalletEnrichment W))
      (token_results : Dict Str (TokenEnrichment W))
      → let reports =
          token_reports order min_signal_usd wallet_aggs token_aggs wallet_results token_results in
        Permᴰ (map (λ r. r.key) reports) (keys token_aggs) × IsOrderedBy IsBefore reports
  unfolding token_reports
  token_reports-IsOrderedBy order min_signal_usd wallet_aggs token_aggs wallet_results
        token_results =
      let (buyers, usd) = token_buyers order wallet_aggs in
      let report : Str × TokenAgg → TokenReport W = λ kv.
        token_report order min_signal_usd (wallet_inputs order wallet_aggs wallet_results)
          (lookup_or kv.0 [] buyers) (lookup_or kv.0 f.zero usd) kv.0 kv.1
          (token_input kv.0 kv.1 (lookup kv.0 token_results)) in
      let ranged = order.shuffle (Str × TokenAgg) 12 token_aggs in
      reports-IsOrderedBy report ranged token_aggs
        (λ kv.
          token_report-key order min_signal_usd (wallet_inputs order wallet_aggs wallet_results)
            (lookup_or kv.0 [] buyers) (lookup_or kv.0 f.zero usd) kv.0 kv.1
            (token_input kv.0 kv.1 (lookup kv.0 token_results)))
        (order.shuffle_perm (Str × TokenAgg) 12 token_aggs)

-- ===== src/Pipeline/Universe/Kept.antt =====
-- internal/pipeline/pipeline.go: what the loops of deriveUniverse and limitUniverse leave in their maps.
use mathlib.Core.List.Memᴰ
use smart_money_falsifier.Base.{
  suc, ◌+◌, ◌≡◌, refl, ap, sym, subst, ◌∙◌, inl, inr, Bool, Bool-cases, Option-cases, none, some,
  List, [], ◌∷◌, Memᴰ, if◌then◌else◌, length, fold, fold_inv, any, All, All-intro, All-mem,
  Distinct, insert-Distinct, keys, Str, str_eq, str_eq_iff, str_key, Dict, lookup, insert,
  lookup-insert, arith,
}
use smart_money_falsifier.Float.{Float64}
use smart_money_falsifier.Pipeline.Universe.{
  WalletAgg, TokenAgg, DexTrade, ParseTime, derive_trade, derive_universe, keep_wallet,
}

module _ {W : Type 0} where
  pub derive_universe-Distinct :
      (parse : ParseTime) (seed : List (DexTrade W))
      → Distinct (keys (derive_universe parse seed).0)
  unfolding derive_universe derive_trade
  derive_universe-Distinct parse seed =
      fold_inv (λ s. Distinct (keys s.0)) (derive_trade parse) ([], []) seed
        (λ s tr _ h. insert-Distinct tr.trader_address _ s.0 h) tt

  -- Every entry of the ranking is a wallet's.
  abbrev pub AreWallets : Dict Str (WalletAgg W) → List (Str × W) → Type 0
  AreWallets wallets rs = All (λ r. (w : WalletAgg W) × (lookup r.0 wallets ≡ some w)) rs

  abbrev pub is_named : Str → List (Str × W) → Bool
  is_named a rs = any (λ r. str_eq r.0 a) rs

module _ {W : Type 0} ⦃f : Float64 W⦄ (wallets : Dict Str (WalletAgg W))
    (tokens : Dict Str TokenAgg) where
  abbrev Kept : Type 0
  Kept = Dict Str (WalletAgg W) × Dict Str TokenAgg

  keep_wallet-wallets :
      (s : Kept) (r : Str × W) (w : WalletAgg W)
      → lookup r.0 wallets ≡ some w
      → (keep_wallet wallets tokens s r).0 ≡ insert r.0 w s.0
  unfolding keep_wallet
  keep_wallet-wallets s r w e = rw (keep_wallet, e) refl

  keep_wallet-Distinct :
      (s : Kept) (r : Str × W)
      → Distinct (keys s.0)
      → Distinct (keys (keep_wallet wallets tokens s r).0)
  unfolding keep_wallet
  keep_wallet-Distinct s r d = elim (Option-cases (lookup r.0 wallets)) [
    | inl e ↦ rw (keep_wallet, e) d
    | inr (w, e) ↦ rw (keep_wallet, e) (insert-Distinct r.0 w s.0 d)
  ]

  pub kept-Distinct :
      (rs : List (Str × W)) → Distinct (keys (fold (keep_wallet wallets tokens) ([], []) rs).0)
  kept-Distinct rs =
      fold_inv (λ s. Distinct (keys s.0)) (keep_wallet wallets tokens) ([], []) rs
        (λ s r _ d. keep_wallet-Distinct s r d) tt

  pub kept-lookup :
      (rs : List (Str × W)) (s : Kept) (a : Str)
      → AreWallets wallets rs
      → lookup a (fold (keep_wallet wallets tokens) s rs).0
        ≡ (if is_named a rs then lookup a wallets else lookup a s.0)
  kept-lookup [] s a h = refl
  kept-lookup (r ∷ rs) s a ((w, e), h) =
      let step = keep_wallet-wallets s r w e in
      let rest = kept-lookup rs (keep_wallet wallets tokens s r) a h in
      let here = ap (lookup a) step ∙ lookup-insert r.0 a w s.0 in
      elim (Bool-cases (str_eq r.0 a)) [
        | inl t ↦
            let found = subst (λ k. lookup k wallets ≡ some w) ((str_eq_iff r.0 a).0 t) e in
            rest ∙ (rw (here, t) (ground (arith, found, t)))
        | inr t ↦ rest ∙ (rw (here, t) (ground (arith, t)))
      ]

  length-insert :
      (k : Str) (w : WalletAgg W) (m : Dict Str (WalletAgg W))
      → lookup k m ≡ none
      → length (insert k w m) ≡ suc (length m)
  unfolding lookup insert
  length-insert k w [] h = refl
  length-insert k w ((j, v) ∷ m) h = elim (Bool-cases (str_eq j k)) [
    | inl t ↦ absurd (ground (arith, t, h))
    | inr t ↦ rw t (ap suc (length-insert k w m (rw t at h)))
  ]

  still_absent :
      (rs : List (Str × W)) (s : Kept) (r : Str × W) (w : WalletAgg W)
      → lookup r.0 wallets ≡ some w
      → ¬ Memᴰ r.0 (keys rs)
      → All (λ x. lookup x.0 s.0 ≡ none) rs
      → All (λ x. lookup x.0 (keep_wallet wallets tokens s r).0 ≡ none) rs
  still_absent rs s r w e new n = All-intro rs (λ x m.
      let here = ap (lookup x.0) (keep_wallet-wallets s r w e) ∙ lookup-insert r.0 x.0 w s.0 in
      elim (Bool-cases (str_eq r.0 x.0)) [
        | inl t ↦ absurd (
            new (
              subst (λ k. Memᴰ k (keys rs)) (sym ((str_eq_iff r.0 x.0).0 t))
                (Memᴰ.map (λ (y : Str × W). y.0) m)))
        | inr t ↦ here ∙ (rw t (All-mem (λ y. lookup y.0 s.0 ≡ none) rs n m))
      ])

  pub length-kept :
      (rs : List (Str × W)) (s : Kept)
      → AreWallets wallets rs
      → Distinct (keys rs)
      → All (λ r. lookup r.0 s.0 ≡ none) rs
      → length (fold (keep_wallet wallets tokens) s rs).0 ≡ length s.0 + length rs
  length-kept [] s h d n = omega arith
  length-kept (r ∷ rs) s ((w, e), h) d n =
      let step = keep_wallet-wallets s r w e in
      let rest =
        length-kept rs (keep_wallet wallets tokens s r) h d.1 (still_absent rs s r w e d.0 n.1) in
      omega (arith, rest, ap length step, length-insert r.0 w s.0 n.0)

-- ===== src/Pipeline/Universe/Top.antt =====
-- internal/pipeline/pipeline.go, limitUniverse: the wallets that it keeps against those that it
-- leaves out.
use mathlib.Core.List.Memᴰ
use mathlib.Core.List.Permᴰ
use smart_money_falsifier.Base.{
  ℕ, ◌≡◌, ◌≤◌, ◌<◌, refl, ap, sym, subst, ◌∙◌, ◌⊎◌, inl, inr, Bool-cases, true, false, List, [],
  ◌∷◌, Memᴰ, if◌then◌else◌, length, take, All, All-mem, All-intro, Distinct, keys, Str, str_eq,
  str_key, Dict, lookup, MapOrder, sort_by, sort_by-perm, take-IsSorted, Memᴰ-perm, Distinct-perm,
  take-Distinct, mem-take, length-perm, length-map, length-take, zero, suc, fold, str_eq_iff, arith,
  mem-lookup, some, none, leb, ◌||◌,
}
use smart_money_falsifier.Float.{Float64, IsOrdered}
use smart_money_falsifier.Pipeline.Universe.{
  WalletAgg, TokenAgg, DexTrade, ParseTime, derive_universe, rank_less, bought_value,
  limit_universe, keep_wallet,
}
use smart_money_falsifier.Pipeline.Universe.Kept.{
  derive_universe-Distinct, kept-Distinct, kept-lookup, length-kept, is_named, AreWallets,
}
use smart_money_falsifier.Pipeline.Universe.Ranking.{
  IsRanked, IsValued, valued, keys-valued, valued-IsRanked, not-rank_less-lt, ranking-IsSorted,
}
use smart_money_falsifier.Pipeline.Universe.Limit.{ranking-eq}

module _ {W : Type 0} ⦃f : Float64 W⦄ where
  -- A wallet is kept, or it bought no more than one that is.
  abbrev pub IsKeptOrLess : Dict Str (WalletAgg W) → WalletAgg W → Str × WalletAgg W → Type 0
  IsKeptOrLess m w kv =
      (lookup kv.0 m ≡ some kv.1) ⊎ (f.lt (bought_value w) (bought_value kv.1) ≡ false)

  -- As many wallets as the cap says, each as it is in the universe, and none left out bought more.
  abbrev pub IsTop : ℕ → Dict Str (WalletAgg W) → Dict Str (WalletAgg W) → Type 0
  IsTop max wallets m =
      (length m ≡ max)
      × All (λ kw. (lookup kw.0 wallets ≡ some kw.1) × All (IsKeptOrLess m kw.1) wallets) m

  some_inj : {a b : WalletAgg W} → some a ≡ some b → a ≡ b
  some_inj e = cc e

  is_named-mem : (a : Str) (rs : List (Str × W)) → is_named a rs ≡ true → (v : W) × Memᴰ (a, v) rs
  is_named-mem a [] h = absurd (cc h)
  is_named-mem a ((b, v) ∷ rs) h = elim (Bool-cases (str_eq b a)) [
    | inl t ↦ (v, Memᴰ.head (rw ((str_eq_iff b a).0 t) refl))
    | inr t ↦ let (w, m) = is_named-mem a rs (ground (arith, t, h)) in (w, Memᴰ.tail m)
  ]

  mem-is_named : (a : Str) (v : W) (rs : List (Str × W)) → Memᴰ (a, v) rs → is_named a rs ≡ true
  mem-is_named a v [] m = elim m [ ]
  mem-is_named a v ((b, w) ∷ rs) (Memᴰ.head e) =
      ground (arith, (str_eq_iff b a).1 (sym (ap (λ p. p.0) e)))
  mem-is_named a v ((b, w) ∷ rs) (Memᴰ.tail m) = ground (arith, mem-is_named a v rs m)

  -- An entry of the ranking is a wallet with what it bought.
  of_valued :
      (wallets : Dict Str (WalletAgg W)) (a : Str) (v : W)
      → Distinct (keys wallets)
      → Memᴰ (a, v) (valued wallets)
      → (w : WalletAgg W) × (lookup a wallets ≡ some w) × (v ≡ bought_value w)
  of_valued wallets a v d m =
      let ((k, w), n, e) = Memᴰ.of_map (λ kv. (kv.0, bought_value kv.1)) wallets m in
      let found = mem-lookup k w wallets d n in
      (w, subst (λ x. lookup x wallets ≡ some w) (ap (λ p. p.0) e) found, sym (ap (λ p. p.1) e))

  of_ranking :
      (wallets : Dict Str (WalletAgg W)) (a : Str) (v : W)
      → Distinct (keys wallets)
      → Memᴰ (a, v) (sort_by rank_less (valued wallets))
      → (w : WalletAgg W) × (lookup a wallets ≡ some w) × (v ≡ bought_value w)
  of_ranking wallets a v d m =
      of_valued wallets a v d (Memᴰ-perm (sort_by-perm rank_less (valued wallets)) m)

  to_ranking :
      (wallets : Dict Str (WalletAgg W)) (a : Str) (w : WalletAgg W)
      → Memᴰ (a, w) wallets
      → Memᴰ (a, bought_value w) (sort_by rank_less (valued wallets))
  to_ranking wallets a w m =
      Memᴰ-perm (Permᴰ.symm (sort_by-perm rank_less (valued wallets)))
        (Memᴰ.map (λ (kv : Str × WalletAgg W). (kv.0, bought_value kv.1)) m)

module _ {W : Type 0} ⦃f : Float64 W⦄ (wallets : Dict Str (WalletAgg W))
    (d : Distinct (keys wallets)) (max : ℕ) where
  abbrev ranking : List (Str × W)
  ranking = sort_by rank_less (valued wallets)

  ranking-Distinct : Distinct (keys ranking)
  ranking-Distinct =
      Distinct-perm
        (Permᴰ.map (λ (r : Str × W). r.0) (Permᴰ.symm (sort_by-perm rank_less (valued wallets))))
        (subst Distinct (sym (keys-valued wallets)) d)

  keys-take : (n : ℕ) (l : List (Str × W)) → keys (take n l) ≡ take n (keys l)
  keys-take zero l = refl
  keys-take (suc n) [] = refl
  keys-take (suc n) (r ∷ l) = ap (λ ks. r.0 ∷ ks) (keys-take n l)

  top-AreWallets : AreWallets wallets (take max ranking)
  top-AreWallets =
      All-intro (take max ranking)
        (λ r m. let (w, e, v) = of_ranking wallets r.0 r.1 d (mem-take max ranking m) in (w, e))

  length-top :
      (tokens : Dict Str TokenAgg)
      → max ≤ length wallets
      → length (fold (keep_wallet wallets tokens) ([], []) (take max ranking)).0 ≡ max
  unfolding lookup
  length-top tokens h =
      let kept =
        length-kept wallets tokens (take max ranking) ([], []) top-AreWallets
          (subst Distinct (sym (keys-take max ranking))
            (take-Distinct max (keys ranking) ranking-Distinct))
          (All-intro (take max ranking) (λ r m. refl)) in
      let all =
        length-perm (sort_by-perm rank_less (valued wallets))
        ∙ length-map (λ (kv : Str × WalletAgg W). (kv.0, bought_value kv.1)) wallets in
      omega (arith, kept, all, h, length-take max ranking)

  -- What is kept is what the first of the ranking name.
  abbrev kept : Dict Str TokenAgg → Dict Str (WalletAgg W)
  kept tokens = (fold (keep_wallet wallets tokens) ([], []) (take max ranking)).0

  lookup-kept :
      (tokens : Dict Str TokenAgg) (a : Str)
      → lookup a (kept tokens) ≡ (if is_named a (take max ranking) then lookup a wallets else none)
  unfolding lookup
  lookup-kept tokens a = kept-lookup wallets tokens (take max ranking) ([], []) a top-AreWallets

  kept-own :
      (tokens : Dict Str TokenAgg) (a : Str) (w : WalletAgg W)
      → lookup a (kept tokens) ≡ some w
      → (is_named a (take max ranking) ≡ true) × (lookup a wallets ≡ some w)
  kept-own tokens a w e = elim (Bool-cases (is_named a (take max ranking))) [
    | inr t ↦ absurd (ground (arith, lookup-kept tokens a, t, e))
    | inl t ↦ (t, ground (arith, lookup-kept tokens a, t, e))
  ]

  -- Where a wallet that is kept stands among the first of the ranking.
  kept-place :
      (tokens : Dict Str TokenAgg) (a : Str) (w : WalletAgg W)
      → lookup a (kept tokens) ≡ some w
      → Memᴰ (a, bought_value w) (take max ranking)
  kept-place tokens a w e =
      let (t, own) = kept-own tokens a w e in
      let (x, k) = is_named-mem a (take max ranking) t in
      let (w', e', q) = of_ranking wallets a x d (mem-take max ranking k) in
      subst (λ y. Memᴰ (a, y) (take max ranking)) (q ∙ ap bought_value (some_inj (sym e' ∙ own))) k

  named-kept :
      (tokens : Dict Str TokenAgg) (kv : Str × WalletAgg W)
      → Memᴰ kv wallets
      → Memᴰ (kv.0, bought_value kv.1) (take max ranking)
      → lookup kv.0 (kept tokens) ≡ some kv.1
  named-kept tokens kv m n =
      lookup-kept tokens kv.0
      ∙ (rw (mem-is_named kv.0 (bought_value kv.1) (take max ranking) n)
          (mem-lookup kv.0 kv.1 wallets d m))

  kept-IsKeptOrLess :
      IsOrdered W
      → (tokens : Dict Str TokenAgg) → IsValued wallets
      → (a : Str) (w : WalletAgg W) → lookup a (kept tokens) ≡ some w
      → (kv : Str × WalletAgg W) → Memᴰ kv wallets
      → IsKeptOrLess (kept tokens) w kv
  kept-IsKeptOrLess laws tokens v a w e kv m =
      let l = valued wallets in
      let here = kept-place tokens a w e in
      let left =
        All-mem (IsRanked l) l (valued-IsRanked wallets v)
          (Memᴰ-perm (sort_by-perm rank_less l) (mem-take max ranking here)) in
      let right =
        All-mem (IsRanked l) l (valued-IsRanked wallets v)
          (Memᴰ.map (λ (y : Str × WalletAgg W). (y.0, bought_value y.1)) m) in
      elim (take-IsSorted rank_less max ranking (ranking-IsSorted laws wallets v) here
        (to_ranking wallets kv.0 kv.1 m)) [
          | inl n ↦ inl (named-kept tokens kv m n)
          | inr z ↦ inr (not-rank_less-lt laws l (a, bought_value w) _ left right z)
        ]

  kept-IsTop :
      IsOrdered W
      → (tokens : Dict Str TokenAgg) → IsValued wallets
      → max ≤ length wallets
      → IsTop max wallets (kept tokens)
  kept-IsTop laws tokens v h = (
    length-top tokens h,
    All-intro (kept tokens) (λ kw n.
        let e =
          mem-lookup kw.0 kw.1 (kept tokens) (kept-Distinct wallets tokens (take max ranking)) n in
        (
          (kept-own tokens kw.0 kw.1 e).1,
          All-intro wallets (λ kv m. kept-IsKeptOrLess laws tokens v kw.0 kw.1 e kv m),
        )),
  )

module _ {W : Type 0} ⦃f : Float64 W⦄ (laws : IsOrdered W) where
  -- For every order of the map, a positive cap and a seed of more wallets than the cap, whose purchases
  -- add up to numbers: limitUniverse keeps exactly as many wallets as the cap says, each as the seed
  -- made it, and every wallet that it leaves out bought for no more than each one that it keeps.
  pub limit_universe-IsTop :
      (order : MapOrder) (parse : ParseTime) (seed : List (DexTrade W)) (max : ℕ)
      → IsValued (derive_universe parse seed).0
      → 0 < max
      → max < length (derive_universe parse seed).0
      → IsTop max
          (derive_universe parse seed).0
          (limit_universe order (derive_universe parse seed).0 (derive_universe parse seed).1 max).0
  unfolding limit_universe
  limit_universe-IsTop order parse seed max v pos less =
      let (wallets, tokens) = derive_universe parse seed in
      let d = derive_universe-Distinct parse seed in
      let capped : (leb max 0 || leb (length wallets) max) ≡ false = ground (arith, pos, less) in
      rw (ranking-eq laws order wallets d v, capped)
        (kept-IsTop wallets d max laws tokens v (omega (arith, less)))

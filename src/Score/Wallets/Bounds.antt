-- ===== src/Score/Wallets/Bounds.antt =====
-- internal/score/score.go: what the ranking of the wallets returns.
use mathlib.Core.List.Permᴰ
use smart_money_falsifier.Base.{
  ◌⊎◌, str_lt, arith, All-perm, IsOrderedBy, IsOrderedBy-sorted, ℕ, suc, ◌≡◌, refl, subst, ap, inl,
  inr, Bool, Bool-cases, true, false, List, [], ◌∷◌, map, Permᴰ, All, All-intro, All-mem, Memᴰ-perm,
  MapOrder, sort_by, sort_by-IsSorted_on, sort_by-perm, enumerate, enumerate_from, Dict, Str, ℤ,
}
use smart_money_falsifier.Float.{Float64, IsOrdered}
use smart_money_falsifier.Float.Descending.{best_first_asym, not-best_first_trans}
use smart_money_falsifier.Score.Move.Peak.{asymmetric}
use smart_money_falsifier.Score.Wallets.{
  WalletInput, TokenInput, clamp01, score_wallets, score_one, distributing_tokens, cluster_sizes,
  WalletScore, columns, score_less, Columns,
}

module _ {W : Type 0} ⦃f : Float64 W⦄ (laws : IsOrdered W) where
  -- A number from zero to one.
  pub record IsShare (x : W) : Type 0 where
    pub is_num : f.eq x x ≡ true
    pub from_zero : f.lt x f.zero ≡ false
    pub to_one : f.lt f.one x ≡ false

  zero-IsShare : IsShare f.zero
  zero-IsShare = record {
    is_num = laws.zero_num;
    from_zero = laws.lt_irrefl f.zero;
    to_one = asymmetric laws f.zero f.one laws.zero-lt-one;
  }

  one-IsShare : IsShare f.one
  one-IsShare = record {
    is_num = laws.one_num;
    from_zero = asymmetric laws f.zero f.one laws.zero-lt-one;
    to_one = laws.lt_irrefl f.one;
  }

  pub clamp01-IsShare : (v : W) → IsShare (clamp01 v)
  unfolding clamp01
  clamp01-IsShare v = elim (Bool-cases (f.eq v v)) [
    | inr t ↦ rw t zero-IsShare
    | inl t ↦ elim (Bool-cases (f.lt v f.zero)) [
      | inl u ↦ rw (t, u) zero-IsShare
      | inr u ↦ elim (Bool-cases (f.lt f.one v)) [
        | inl x ↦ rw (t, u, x) one-IsShare
        | inr x ↦ rw (t, u, x) (record { is_num = t; from_zero = u; to_one = x })
      ]
    ]
  ]

map-perm : {A B : Type 0} (g : A → B) {xs ys : List A} → Permᴰ xs ys → Permᴰ (map g xs) (map g ys)
map-perm g Permᴰ.nil = Permᴰ.nil
map-perm g (Permᴰ.cons e p) = Permᴰ.cons (ap g e) (map-perm g p)
map-perm g (Permᴰ.swap e e') = Permᴰ.swap (ap g e) (ap g e')
map-perm g (Permᴰ.trans p q) = Permᴰ.trans (map-perm g p) (map-perm g q)

module _ {W : Type 0} ⦃f : Float64 W⦄ where
  scored-IsShare :
      (laws : IsOrdered W) (d : Dict Str Bool) (sizes : Dict Str ℕ) (norms : Columns W) (i : ℕ)
      (ws : List (WalletInput W))
      → All (λ r. IsShare laws r.score) (map (score_one d sizes norms) (enumerate_from i ws))
  unfolding score_one
  scored-IsShare laws d sizes norms i [] = tt
  scored-IsShare laws d sizes norms i (w ∷ ws) =
      (clamp01-IsShare laws _, scored-IsShare laws d sizes norms (suc i) ws)

  scored-addresses :
      (d : Dict Str Bool) (sizes : Dict Str ℕ) (norms : Columns W) (i : ℕ)
      (ws : List (WalletInput W))
      → map (λ r. r.address) (map (score_one d sizes norms) (enumerate_from i ws))
        ≡ map (λ w. w.address) ws
  unfolding score_one
  scored-addresses d sizes norms i [] = refl
  scored-addresses d sizes norms i (w ∷ ws) =
      ap (λ t. w.address ∷ t) (scored-addresses d sizes norms (suc i) ws)

  -- The higher score first; of two that are equal, the smaller address.
  abbrev pub IsRankedBefore : WalletScore W → WalletScore W → Type 0
  IsRankedBefore a b =
      (f.lt b.score a.score ≡ true)
      ⊎ ((f.eq a.score b.score ≡ true) × (str_lt b.address a.address ≡ false))

  before :
      (laws : IsOrdered W) (a b : WalletScore W)
      → IsShare laws a.score
      → IsShare laws b.score
      → score_less b a ≡ false
      → IsRankedBefore a b
  before laws a b p q h =
      let left = laws.eq-not-lt a.score b.score p.is_num q.is_num in
      let right = laws.eq-not-lt b.score a.score q.is_num p.is_num in
      elim (Bool-cases (f.lt b.score a.score)) [
        | inl t ↦ inl t
        | inr t ↦ inr (ground (arith, left, right, t, h), ground (arith, left, right, t, h))
      ]

  scores-ordered :
      (laws : IsOrdered W) (rs : List (WalletScore W))
      → All (λ r. IsShare laws r.score) rs
      → IsOrderedBy IsRankedBefore (sort_by score_less rs)
  scores-ordered laws rs h =
      let value = λ (r : WalletScore W). r.score in
      let name = λ (r : WalletScore W). r.address in
      IsOrderedBy-sorted IsRankedBefore (λ r. IsShare laws r.score) score_less (before laws)
        (sort_by score_less rs)
        (All-perm (λ r. IsShare laws r.score) (Permᴰ.symm (sort_by-perm score_less rs)) h)
        (sort_by-IsSorted_on (λ r. IsShare laws r.score) score_less
          (λ r s i j. best_first_asym value name laws r s i.is_num j.is_num)
          (λ r s t i j k. not-best_first_trans value name laws r s t i.is_num j.is_num k.is_num) rs
          h)

  -- With the named laws of float64: the ranking keeps every wallet, once, whatever the order of the maps
  -- is; every score is a number from zero to one, also where a figure of the wallet is none; and of any
  -- two wallets the one with the higher score stands first, or, where their scores are equal, the one
  -- whose address is not the greater.
  pub score_wallets-lem :
      (laws : IsOrdered W) (order : MapOrder) (wallets : List (WalletInput W))
      (tokens : List (TokenInput W)) (ref : ℤ)
      → Permᴰ
          (map (λ r. r.address) (score_wallets order wallets tokens ref))
          (map (λ w. w.address) wallets)
        × All (λ r. IsShare laws r.score) (score_wallets order wallets tokens ref)
        × IsOrderedBy IsRankedBefore (score_wallets order wallets tokens ref)
  unfolding score_wallets
  score_wallets-lem laws order wallets tokens ref =
      let d = distributing_tokens tokens in
      let sizes = cluster_sizes order wallets in
      let norms = columns order wallets ref in
      let sorted = sort_by-perm score_less (map (score_one d sizes norms) (enumerate wallets)) in
      (
        subst (λ l. Permᴰ (map (λ r. r.address) (score_wallets order wallets tokens ref)) l)
            (scored-addresses d sizes norms 0 wallets) (map-perm (λ r. r.address) sorted),
        All-intro _ (λ r m.
            All-mem (λ r. IsShare laws r.score) _ (scored-IsShare laws d sizes norms 0 wallets)
              (Memᴰ-perm sorted m)),
        scores-ordered laws _ (scored-IsShare laws d sizes norms 0 wallets),
      )

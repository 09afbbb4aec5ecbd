-- ===== src/Score/Census/Listed.antt =====
-- internal/score/cluster.go, ComputeFunderCensus: the list of the funders.
use mathlib.Core.List.Memᴰ
use mathlib.Core.List.Permᴰ
use smart_money_falsifier.Base.{
  ℕ, ◌≡◌, refl, ap, sym, subst, ◌∙◌, ◌⊎◌, inl, inr, Bool-cases, false, Option-cases, some, List, [],
  ◌∷◌, map, Memᴰ, if◌then◌else◌, length, select, fold, fold_inv, any, All, All-mem, All-intro,
  All-insert, Distinct, insert-Distinct, mem-lookup, lookup-mem, keys, Str, str_eq, str_eq_iff,
  str_key, Dict, lookup, lookup_or, MapOrder, sort_by, sort_by-perm, Memᴰ-perm, arith,
}
use smart_money_falsifier.Score.Cluster.{Funder, BuyerInput}
use smart_money_falsifier.Score.Census.{
  FunderCount, count_funder, see_funder, count_wallet, count_less, compute_funder_census,
}
use smart_money_falsifier.Score.Census.Counts.{counted, is_funded_by, counted-wallets}

-- Each entry has its key for its address, and no key stands twice.
abbrev IsKeyed : Dict Str FunderCount → Type 0
IsKeyed counts = All (λ kv. kv.1.address ≡ kv.0) counts × Distinct (keys counts)

entry-address :
    (k : Str) (fc : FunderCount) (counts : Dict Str FunderCount)
    → fc.address ≡ k
    → IsKeyed counts
    → (lookup_or k fc counts).address ≡ k
entry-address k fc counts e h = elim (Option-cases (lookup k counts)) [
  | inl q ↦ rw (lookup_or, q) e
  | inr (old, q) ↦
      rw (lookup_or, q) (All-mem (λ kv. kv.1.address ≡ kv.0) counts h.0 (lookup-mem k counts q))
]

count_funder-IsKeyed :
    (counts : Dict Str FunderCount) (g : Funder) → IsKeyed counts → IsKeyed (count_funder counts g)
unfolding count_funder
count_funder-IsKeyed counts g h =
    let fresh : FunderCount = record { address = g.address; label = g.label; wallet_count = 0 } in
    (
      All-insert (λ kv. kv.1.address ≡ kv.0) g.address _ counts
          (entry-address g.address fresh counts refl h) h.0,
      insert-Distinct g.address _ counts h.1,
    )

see_funder-IsKeyed :
    (s : List Str × Dict Str FunderCount) (g : Funder) → IsKeyed s.1 → IsKeyed (see_funder s g).1
unfolding see_funder
see_funder-IsKeyed (seen, counts) g h = elim (Bool-cases (any (str_eq g.address) seen)) [
  | inl e ↦ rw (see_funder, e) h
  | inr e ↦ rw (see_funder, e) (count_funder-IsKeyed counts g h)
]

wallets-IsKeyed : {W : Type 0} (ws : List (BuyerInput W)) → IsKeyed (fold count_wallet [] ws)
unfolding count_wallet
wallets-IsKeyed ws =
    fold_inv IsKeyed count_wallet [] ws
      (λ counts w _ h.
        fold_inv (λ s. IsKeyed s.1) see_funder ([], counts) w.funders
          (λ s g _ k. see_funder-IsKeyed s g k) h)
      (tt, tt)

-- The count that a list of funders gives an address; none where it is not in the list.
abbrev pub listed : List FunderCount → Str → ℕ
listed [] a = 0
listed (fc ∷ fcs) a = if str_eq fc.address a then fc.wallet_count else listed fcs a

-- An entry of the list that is not its first is in the rest.
in_rest :
    (fc : FunderCount) (fcs : List FunderCount) (a : Str) (x : FunderCount)
    → str_eq fc.address a ≡ false
    → x.address ≡ a
    → Memᴰ x (fc ∷ fcs)
    → Memᴰ x fcs
in_rest fc fcs a x t e (Memᴰ.head q) =
    absurd (ground (arith, t, (str_eq_iff fc.address a).1 (ap (λ y. y.address) (sym q) ∙ e)))
in_rest fc fcs a x t e (Memᴰ.tail m) = m

listed-is :
    (fcs : List FunderCount) (a : Str) (c : ℕ)
    → All (λ fc. fc.address ≡ a → fc.wallet_count ≡ c) fcs
    → (c ≡ 0) ⊎ ((fc : FunderCount) × Memᴰ fc fcs × (fc.address ≡ a))
    → listed fcs a ≡ c
listed-is [] a c h (inl z) = sym z
listed-is [] a c h (inr (fc, m, e)) = elim m [ ]
listed-is (fc ∷ fcs) a c h there = elim (Bool-cases (str_eq fc.address a)) [
  | inl t ↦ rw (listed, t) (h.0 ((str_eq_iff fc.address a).0 t))
  | inr t ↦
      rw (listed, t)
        (listed-is fcs a c h.1
          (elim there [ inl z ↦ inl z | inr (x, m, e) ↦ inr (x, in_rest fc fcs a x t e m, e) ]))
]

-- What the census says of an address is what the map of the counts says.
abbrev ranged_counts : MapOrder → Dict Str FunderCount → List FunderCount
ranged_counts order counts = map (λ kv. kv.1) (order.shuffle (Str × FunderCount) 0 counts)

to_entry :
    (order : MapOrder) (counts : Dict Str FunderCount)
    → IsKeyed counts
    → (fc : FunderCount) → Memᴰ fc (sort_by count_less (ranged_counts order counts))
    → lookup fc.address counts ≡ some fc
to_entry order counts h fc m =
    let (kv, n, e) =
      Memᴰ.of_map (λ kv. kv.1) (order.shuffle (Str × FunderCount) 0 counts)
        (Memᴰ-perm (sort_by-perm count_less (ranged_counts order counts)) m) in
    let at = Memᴰ-perm (order.shuffle_perm (Str × FunderCount) 0 counts) n in
    let key = All-mem (λ kv. kv.1.address ≡ kv.0) counts h.0 at in
    let found = mem-lookup kv.0 kv.1 counts h.1 at in
    ap (λ k. lookup k counts) (ap (λ x. x.address) (sym e) ∙ key) ∙ found ∙ ap some e

from_entry :
    (order : MapOrder) (counts : Dict Str FunderCount) (k : Str) (fc : FunderCount)
    → lookup k counts ≡ some fc
    → Memᴰ fc (sort_by count_less (ranged_counts order counts))
from_entry order counts k fc e =
    Memᴰ-perm (Permᴰ.symm (sort_by-perm count_less (ranged_counts order counts))) (
      Memᴰ.map (λ (kv : Str × FunderCount). kv.1)
        (Memᴰ-perm (Permᴰ.symm (order.shuffle_perm (Str × FunderCount) 0 counts))
          (lookup-mem k counts e)))

is_counted :
    (fc : FunderCount) (a : Str) (counts : Dict Str FunderCount)
    → lookup fc.address counts ≡ some fc
    → fc.address ≡ a
    → fc.wallet_count ≡ counted counts a
is_counted fc a counts e same = rw (counted, subst (λ k. lookup k counts ≡ some fc) same e) refl

listed-counted :
    (order : MapOrder) (counts : Dict Str FunderCount) (a : Str)
    → IsKeyed counts
    → listed (sort_by count_less (ranged_counts order counts)) a ≡ counted counts a
listed-counted order counts a h =
    listed-is (sort_by count_less (ranged_counts order counts)) a (counted counts a)
      (All-intro _ (λ fc m same. is_counted fc a counts (to_entry order counts h fc m) same))
      (elim (Option-cases (lookup a counts)) [
        | inl e ↦ inl (rw (counted, e) refl)
        | inr (fc, e) ↦ inr (
          fc,
          from_entry order counts a fc e,
          All-mem (λ kv. kv.1.address ≡ kv.0) counts h.0 (lookup-mem a counts e),
        )
      ])

counted-nil : (a : Str) → counted [] a ≡ 0
unfolding lookup
counted-nil a = refl

module _ {W : Type 0} where
  -- For every order of the maps and every address, the census lists the address with the number of
  -- the wallets that have it among their funders, each wallet once however often it names the
  -- address; it lists no count for an address that no wallet names.
  pub listed-census :
      (order : MapOrder) (wallets : List (BuyerInput W)) (a : Str)
      → listed (compute_funder_census order wallets).top_funders a
        ≡ length (select (is_funded_by a) wallets)
  unfolding compute_funder_census
  listed-census order wallets a =
      let counts = fold count_wallet [] wallets in
      listed-counted order counts a (wallets-IsKeyed wallets)
      ∙ omega (arith, counted-wallets wallets [] a, counted-nil a)

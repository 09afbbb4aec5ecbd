-- ===== src/Score/Census/Counts.antt =====
-- internal/score/cluster.go, ComputeFunderCensus: its counts against the wallets themselves.
use smart_money_falsifier.Base.{
  ℕ, ◌+◌, ◌≡◌, refl, ap, sym, subst, ◌∙◌, inl, inr, Bool, Bool-cases, true, false, not, ◌&&◌,
  Option-cases, none, some, List, [], ◌∷◌, if◌then◌else◌, length, select, fold, any, Str, str_eq,
  str_eq_iff, str_key, Dict, lookup, lookup_or, insert, lookup-insert, arith,
}
use smart_money_falsifier.Score.Cluster.{Funder, BuyerInput}
use smart_money_falsifier.Score.Census.{FunderCount, count_funder, see_funder, count_wallet}

-- The count of the entry of an address, and none where it has no entry.
abbrev pub counted : Dict Str FunderCount → Str → ℕ
counted counts a = elim (lookup a counts) [ none ↦ 0 | some fc ↦ fc.wallet_count ]

abbrev one_if : Bool → ℕ
one_if b = if b then 1 else 0

counted-insert :
    (k a : Str) (fc : FunderCount) (counts : Dict Str FunderCount)
    → counted (insert k fc counts) a ≡ (if str_eq k a then fc.wallet_count else counted counts a)
counted-insert k a fc counts = ground (arith, lookup-insert k a fc counts)

-- A new entry starts at none.
counted-entry :
    (k : Str) (fc : FunderCount) (counts : Dict Str FunderCount)
    → fc.wallet_count ≡ 0
    → (lookup_or k fc counts).wallet_count ≡ counted counts k
counted-entry k fc counts z = elim (Option-cases (lookup k counts)) [
  | inl q ↦ rw (lookup_or, counted, q) z
  | inr (old, q) ↦ rw (lookup_or, counted, q) refl
]

counted-count_funder :
    (counts : Dict Str FunderCount) (g : Funder) (a : Str)
    → counted (count_funder counts g) a ≡ counted counts a + one_if (str_eq g.address a)
unfolding count_funder
counted-count_funder counts g a =
    let fresh : FunderCount = record { address = g.address; label = g.label; wallet_count = 0 } in
    let old = counted-entry g.address fresh counts refl in
    counted-insert g.address a _ counts ∙ (elim (Bool-cases (str_eq g.address a)) [
      | inl e ↦
          let same = (str_eq_iff g.address a).0 e in
          rw e (omega (arith, old, ap (counted counts) same))
      | inr e ↦ rw e (omega arith)
    ])

-- A wallet names a funder.
abbrev names_funder : Str → List Funder → Bool
names_funder a gs = any (λ g. str_eq g.address a) gs

see_again :
    (seen : List Str) (counts : Dict Str FunderCount) (g : Funder)
    → any (str_eq g.address) seen ≡ true
    → see_funder (seen, counts) g ≡ (seen, counts)
unfolding see_funder
see_again seen counts g e = rw (see_funder, e) refl

see_first :
    (seen : List Str) (counts : Dict Str FunderCount) (g : Funder)
    → any (str_eq g.address) seen ≡ false
    → see_funder (seen, counts) g ≡ (g.address ∷ seen, count_funder counts g)
unfolding see_funder
see_first seen counts g e = rw (see_funder, e) refl

-- What the loop adds for an address, from what it has seen and what is to come.
abbrev to_come : Str → List Str → List Funder → ℕ
to_come a seen gs = one_if (not (any (str_eq a) seen) && names_funder a gs)

to_come-again :
    (a : Str) (seen : List Str) (g : Funder) (gs : List Funder)
    → any (str_eq g.address) seen ≡ true
    → to_come a seen (g ∷ gs) ≡ to_come a seen gs
to_come-again a seen g gs e = elim (Bool-cases (str_eq g.address a)) [
  | inl t ↦
      let same = (str_eq_iff g.address a).0 t in
      ground (arith, subst (λ x. any (str_eq x) seen ≡ true) same e)
  | inr t ↦ ground (arith, t)
]

to_come-first :
    (a : Str) (seen : List Str) (g : Funder) (gs : List Funder)
    → any (str_eq g.address) seen ≡ false
    → to_come a seen (g ∷ gs) ≡ one_if (str_eq g.address a) + to_come a (g.address ∷ seen) gs
to_come-first a seen g gs e = elim (Bool-cases (str_eq g.address a)) [
  | inl t ↦
      let same = (str_eq_iff g.address a).0 t in
      ground (
        arith,
        subst (λ x. any (str_eq x) seen ≡ false) same e,
        t,
        (str_eq_iff a g.address).1 (sym same),
      )
  | inr t ↦ ground (arith, t, str_eq_iff a g.address, str_eq_iff g.address a)
]

see_funders :
    (gs : List Funder) (seen : List Str) (counts : Dict Str FunderCount) (a : Str)
    → counted (fold see_funder (seen, counts) gs).1 a ≡ counted counts a + to_come a seen gs
see_funders [] seen counts a = ground arith
see_funders (g ∷ gs) seen counts a = elim (Bool-cases (any (str_eq g.address) seen)) [
  | inl e ↦
      let step =
        ap (λ s. counted (fold see_funder s gs).1 a) (see_again seen counts g e)
        ∙ see_funders gs seen counts a in
      omega (arith, step, to_come-again a seen g gs e)
  | inr e ↦
      let step =
        ap (λ s. counted (fold see_funder s gs).1 a) (see_first seen counts g e)
        ∙ see_funders gs (g.address ∷ seen) (count_funder counts g) a in
      omega (arith, step, counted-count_funder counts g a, to_come-first a seen g gs e)
]

module _ {W : Type 0} where
  -- A wallet that has the address among its funders.
  abbrev pub is_funded_by : Str → BuyerInput W → Bool
  is_funded_by a w = names_funder a w.funders

  counted-count_wallet :
      (counts : Dict Str FunderCount) (w : BuyerInput W) (a : Str)
      → counted (count_wallet counts w) a ≡ counted counts a + one_if (is_funded_by a w)
  unfolding count_wallet
  counted-count_wallet counts w a = omega (arith, see_funders w.funders [] counts a)

  pub counted-wallets :
      (ws : List (BuyerInput W)) (counts : Dict Str FunderCount) (a : Str)
      → counted (fold count_wallet counts ws) a
        ≡ counted counts a + length (select (is_funded_by a) ws)
  counted-wallets [] counts a = omega arith
  counted-wallets (w ∷ ws) counts a =
      ground (arith, counted-wallets ws (count_wallet counts w) a, counted-count_wallet counts w a)

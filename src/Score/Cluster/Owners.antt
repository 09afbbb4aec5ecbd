-- ===== src/Score/Cluster/Owners.antt =====
-- What the two maps of Cluster hold: the owners of each funder, and the index of each buyer.
use mathlib.Core.List.Memᴰ
use smart_money_falsifier.Base.{
  ℕ, zero, suc, ◌+◌, ◌<◌, ◌≡◌, refl, sym, ap, subst, ◌∙◌, inl, inr, Option, none, some, List, [],
  ◌∷◌, ◌++◌, Memᴰ, All, All-mem, All-append, if◌then◌else◌, Bool-cases, length, get_or, fold,
  fold_inv, fold_hit, enumerate, enumerate_from, mem-enumerate_from, enumerate_from-mem, Str,
  str_key, str_eq, str_eq_iff, Dict, lookup, lookup_or, insert, lookup-insert, lookup_or-insert,
  lookup-mem, All-insert, Distinct, arith,
}
use smart_money_falsifier.Float.{Float64}
use smart_money_falsifier.Score.Cluster.{
  BuyerInput, Funder, buyer, zero_buyer, own, funder_owners, index_buyers,
}
use smart_money_falsifier.Score.Cluster.Links.{Claims, addresses}

module _ {W : Type 0} ⦃f : Float64 W⦄ (buyers : List (BuyerInput W)) where
  -- An index in the owners of a funder is a buyer that names it.
  abbrev pub IsOwner : Str → ℕ → Type 0
  IsOwner a i = (i < length buyers) × Claims buyers i a

  -- Each entry of the map holds owners only.
  abbrev pub AreOwners : Dict Str (List ℕ) → Type 0
  AreOwners owners = All (λ e. All (IsOwner e.0) e.1) owners

  pub enumerated :
      (i : ℕ) (b : BuyerInput W)
      → Memᴰ (i, b) (enumerate buyers)
      → (i < length buyers) × (buyer buyers i ≡ b)
  enumerated i b m =
      let (k, e, lt, g) = mem-enumerate_from 0 buyers zero_buyer m in
      (omega arith, subst (λ j. buyer buyers j ≡ b) (omega arith) g)

  pub enumerate_buyer : (i : ℕ) → i < length buyers → Memᴰ (i, buyer buyers i) (enumerate buyers)
  enumerate_buyer i lt =
      subst (λ j. Memᴰ (j, buyer buyers i) (enumerate buyers)) (omega arith)
        (enumerate_from-mem 0 buyers zero_buyer i lt)

  owner :
      (i : ℕ) (b : BuyerInput W)
      → Memᴰ (i, b) (enumerate buyers)
      → (g : Funder) → Memᴰ g b.funders
      → IsOwner g.address i
  owner i b m g k =
      let (lt, e) = enumerated i b m in (lt, rw e (Memᴰ.map (λ (x : Funder). x.address) k))

  own-AreOwners :
      (i : ℕ) (owners : Dict Str (List ℕ)) (g : Funder)
      → IsOwner g.address i
      → AreOwners owners
      → AreOwners (own i owners g)
  unfolding own
  own-AreOwners i owners g c h =
      All-insert (λ e. All (IsOwner e.0) e.1) g.address _ owners
        (All-append (IsOwner g.address) (lookup_or g.address [] owners) (i ∷ [])
          (old (lookup g.address owners) refl) (c, tt))
        h
    where
      old :
          (o : Option (List ℕ))
          → lookup g.address owners ≡ o
          → All (IsOwner g.address) (elim o [ none ↦ [] | some v ↦ v ])
      old none q = tt
      old (some l) q =
          All-mem (λ (e : Str × List ℕ). All (IsOwner e.0) e.1) owners h
            (lookup-mem g.address owners q)

  pub funder_owners-AreOwners : AreOwners (funder_owners buyers)
  unfolding funder_owners
  funder_owners-AreOwners =
      fold_inv AreOwners (λ owners ib. fold (own ib.0) owners ib.1.funders) [] (enumerate buyers)
        (λ owners ib m h.
          fold_inv AreOwners (own ib.0) owners ib.1.funders
            (λ o g k. own-AreOwners ib.0 o g (owner ib.0 ib.1 m g k)) h)
        tt

  -- `own` adds one owner and forgets none.
  lookup_or-own :
      (a : Str) (i : ℕ) (owners : Dict Str (List ℕ)) (g : Funder)
      → lookup_or a [] (own i owners g) ≡ (
          if str_eq g.address a
          then lookup_or g.address [] owners ++ i ∷ []
          else lookup_or a [] owners)
  unfolding own
  lookup_or-own a i owners g = lookup_or-insert g.address a _ [] owners

  own_keeps :
      (a : Str) (i j : ℕ) (owners : Dict Str (List ℕ)) (g : Funder)
      → Memᴰ i (lookup_or a [] owners)
      → Memᴰ i (lookup_or a [] (own j owners g))
  own_keeps a i j owners g m = elim (Bool-cases (str_eq g.address a)) [
    | inl t ↦
        rw (lookup_or-own a j owners g, t)
          (Memᴰ.append_left (j ∷ []) (rw ((str_eq_iff g.address a).0 t) m))
    | inr t ↦ rw (lookup_or-own a j owners g, t) m
  ]

  own_adds :
      (i : ℕ) (owners : Dict Str (List ℕ)) (g : Funder)
      → Memᴰ i (lookup_or g.address [] (own i owners g))
  own_adds i owners g =
      rw (lookup_or-own g.address i owners g, (str_eq_iff g.address g.address).1 refl)
        (Memᴰ.append_right (lookup_or g.address [] owners) (Memᴰ.head refl))

  -- Every buyer that names a funder is among its owners.
  pub claim-owned :
      (i : ℕ) (a : Str)
      → i < length buyers
      → Claims buyers i a
      → Memᴰ i (lookup_or a [] (funder_owners buyers))
  unfolding funder_owners
  claim-owned i a lt c =
      let (g, m, e) = Memᴰ.of_map (λ (x : Funder). x.address) (buyer buyers i).funders c in
      fold_hit (λ owners. Memᴰ i (lookup_or a [] owners))
        (λ owners ib. fold (own ib.0) owners ib.1.funders) [] (enumerate buyers) (i, buyer buyers i)
        (enumerate_buyer i lt)
        (λ owners.
          fold_hit (λ o. Memᴰ i (lookup_or a [] o)) (own i) owners (buyer buyers i).funders g m
            (λ o. subst (λ x. Memᴰ i (lookup_or x [] (own i o g))) e (own_adds i o g))
            (λ o x. own_keeps a i i o x))
        (λ owners ib h.
          fold_inv (λ o. Memᴰ i (lookup_or a [] o)) (own ib.0) owners ib.1.funders
            (λ o x _. own_keeps a i ib.0 o x) h)

  -- The index map sends an address to a buyer that has it.
  abbrev pub AreIndexes : Dict Str ℕ → Type 0
  AreIndexes idx = All (λ e. (e.1 < length buyers) × ((buyer buyers e.1).address ≡ e.0)) idx

  pub index_buyers-AreIndexes : AreIndexes (index_buyers buyers)
  unfolding index_buyers
  index_buyers-AreIndexes =
      fold_inv AreIndexes (λ idx ib. insert ib.1.address ib.0 idx) [] (enumerate buyers)
        (λ idx ib m h.
          let r = enumerated ib.0 ib.1 m in
          All-insert (λ (e : Str × ℕ). (e.1 < length buyers) × ((buyer buyers e.1).address ≡ e.0))
            ib.1.address ib.0 idx (r.0, ap (λ (b : BuyerInput W). b.address) r.1) h)
        tt

module _ {W : Type 0} where
  abbrev put : Dict Str ℕ → ℕ × BuyerInput W → Dict Str ℕ
  put idx ib = insert ib.1.address ib.0 idx

  put_other :
      (s : ℕ) (xs : List (BuyerInput W)) (idx : Dict Str ℕ) (a : Str)
      → ¬ Memᴰ a (addresses xs)
      → lookup a (fold put idx (enumerate_from s xs)) ≡ lookup a idx
  put_other s [] idx a fresh = refl
  put_other s (x ∷ xs) idx a fresh =
      put_other (suc s) xs (insert x.address s idx) a (λ m. fresh (Memᴰ.tail m))
      ∙ ground (
        arith,
        lookup-insert x.address a s idx,
        str_eq_iff x.address a,
        λ (e : x.address ≡ a). fresh (Memᴰ.head (sym e)),
      )

  put_all :
      (s : ℕ) (xs : List (BuyerInput W)) (idx : Dict Str ℕ) (d : BuyerInput W) (k : ℕ)
      → Distinct (addresses xs)
      → k < length xs
      → lookup (get_or xs k d).address (fold put idx (enumerate_from s xs)) ≡ some (s + k)
  put_all s [] idx d k ds lt = absurd (omega arith)
  put_all s (x ∷ xs) idx d zero ds lt =
      put_other (suc s) xs (insert x.address s idx) x.address ds.0
      ∙ rw (lookup-insert, (str_eq_iff x.address x.address).1 refl) (ap some (omega arith))
  put_all s (x ∷ xs) idx d (suc k) ds lt =
      put_all (suc s) xs (insert x.address s idx) d k ds.1 (omega arith) ∙ ap some (omega arith)

module _ {W : Type 0} ⦃f : Float64 W⦄ (buyers : List (BuyerInput W)) where
  -- With distinct addresses the index map finds every buyer.
  pub lookup-index_buyers :
      (j : ℕ)
      → Distinct (addresses buyers)
      → j < length buyers
      → lookup (buyer buyers j).address (index_buyers buyers) ≡ some j
  unfolding index_buyers
  lookup-index_buyers j ds lt = put_all 0 buyers [] zero_buyer j ds lt ∙ ap some (omega arith)

-- ===== src/Scorecard/Headline/Shared.antt =====
-- cmd/scorecard: the funders that the headline and the report name, against the census.
use smart_money_falsifier.Base.{
  ℕ, suc, ◌+◌, ◌≤◌, ◌≡◌, refl, ap, sym, ◌∙◌, inl, inr, Bool, Bool-cases, true, false, List, [], ◌∷◌,
  map, ltb, leb, length, take, select, All, All-map, fold, Str, str_lt_irrefl, str_lt_trans,
  str_lt_total, MapOrder, sort_by-perm, IsSorted, IsOrderedBy, All-select, sort_by-IsSorted,
  length-select-perm, zero, arith,
}
use smart_money_falsifier.Score.Cluster.{BuyerInput}
use smart_money_falsifier.Score.Census.{
  FunderCount, FunderCensus, count_less, count_wallet, compute_funder_census,
}
use smart_money_falsifier.Scorecard.Headline.{leading, census_headline}
use smart_money_falsifier.Scorecard.Report.{ReportFunderRow, funder_rows}

-- A funder of more than one wallet.
abbrev pub is_shared : FunderCount → Bool
is_shared fc = ltb 1 fc.wallet_count

count_less_asym : (x y : FunderCount) → count_less x y ≡ true → count_less y x ≡ false
count_less_asym x y h =
    ground (arith, str_lt_trans x.address y.address x.address, str_lt_irrefl x.address)

not-count_less_trans :
    (x y z : FunderCount) → count_less z y ≡ false → count_less y x ≡ false → count_less z x ≡ false
not-count_less_trans x y z h k = grind (
  arith,
  str_lt_total x.address y.address,
  str_lt_trans z.address x.address y.address,
  str_lt_total z.address y.address,
)

not-count_less-le : (x y : FunderCount) → count_less y x ≡ false → y.wallet_count ≤ x.wallet_count
not-count_less-le x y h = ground arith

select-none :
    (fcs : List FunderCount) → All (λ fc. fc.wallet_count ≤ 1) fcs → select is_shared fcs ≡ []
select-none [] h = refl
select-none (fc ∷ fcs) h = ground (arith, select-none fcs)

leading-select :
    (fcs : List FunderCount) → IsSorted count_less fcs → leading fcs ≡ select is_shared fcs
unfolding leading
leading-select [] h = refl
leading-select (fc ∷ fcs) h = elim (Bool-cases (leb fc.wallet_count 1)) [
  | inl e ↦
      let few : fc.wallet_count ≤ 1 = ground arith in
      let none_left =
        select-none (fc ∷ fcs)
          (few, All-map fcs (λ y k. ground (arith, not-count_less-le fc y k)) h.0) in
      rw e (sym none_left)
  | inr e ↦
      let many : is_shared fc ≡ true = ground arith in
      rw (e, many) (ap (λ l. fc ∷ l) (leading-select fcs h.1))
]

abbrev pub funder_row : FunderCount → ReportFunderRow
funder_row fc = record { label = fc.label; address = fc.address; wallet_count = fc.wallet_count }

funder_rows-take :
    (i left : ℕ) (fcs : List FunderCount)
    → i + left ≡ 5
    → funder_rows i fcs ≡ map funder_row (take left (leading fcs))
unfolding funder_rows leading
funder_rows-take i zero [] h = refl
funder_rows-take i (suc left) [] h = refl
funder_rows-take i zero (fc ∷ fcs) h = ground arith
funder_rows-take i (suc left) (fc ∷ fcs) h = ground (arith, funder_rows-take (suc i) left fcs)

-- A funder of more wallets stands before one of fewer.
abbrev pub AreMostFirst : List FunderCount → Type 0
AreMostFirst fcs = IsOrderedBy (λ a b. b.wallet_count ≤ a.wallet_count) fcs

select-Shared : (fcs : List FunderCount) → All (λ fc. is_shared fc ≡ true) (select is_shared fcs)
select-Shared [] = tt
select-Shared (fc ∷ fcs) = elim (Bool-cases (is_shared fc)) [
  | inl t ↦ rw t (t, select-Shared fcs)
  | inr t ↦ rw t (select-Shared fcs)
]

leading-All : (fcs : List FunderCount) → All (λ fc. is_shared fc ≡ true) fcs → leading fcs ≡ fcs
unfolding leading
leading-All [] h = refl
leading-All (fc ∷ fcs) h = ground (arith, leading-All fcs h.1, h.0)

headline-leading :
    (census : FunderCensus) (fcs : List FunderCount) (n : ℕ)
    → leading census.top_funders ≡ leading fcs
    → census_headline census n ≡ census_headline (record census { top_funders = fcs }) n
unfolding census_headline
headline-leading census fcs n e = rw (census_headline, e) refl

most-first :
    (fcs : List FunderCount) → IsSorted count_less fcs → AreMostFirst (select is_shared fcs)
most-first [] h = tt
most-first (fc ∷ fcs) h = elim (Bool-cases (is_shared fc)) [
  | inl t ↦ rw t (
    All-select (λ g. g.wallet_count ≤ fc.wallet_count) is_shared fcs
        (All-map fcs (λ y k. not-count_less-le fc y k) h.0),
    most-first fcs h.1,
  )
  | inr t ↦ rw t (most-first fcs h.1)
]

-- Which funders the terminal's headline counts and the report lists, for every order of the maps. The
-- headline goes on to the first funder that is not shared, and so counts those that the census counts as
-- shared, all of them and no other; its text is the one that a census of these alone gives; the report
-- lists the first five of them; and none of them stands after one of fewer wallets.
pub leading-shared :
    {W : Type 0} (order : MapOrder) (wallets : List (BuyerInput W)) (wallet_count : ℕ)
    → let census = compute_funder_census order wallets in
      let shared = select is_shared census.top_funders in
      (leading census.top_funders ≡ shared)
      × (length (leading census.top_funders) ≡ census.shared_funders)
      × (census_headline census wallet_count
          ≡ census_headline (record census { top_funders = shared }) wallet_count)
      × (funder_rows 0 census.top_funders ≡ map funder_row (take 5 shared))
      × AreMostFirst shared
unfolding compute_funder_census
leading-shared order wallets wallet_count =
    let census = compute_funder_census order wallets in
    let counts = fold count_wallet [] wallets in
    let ranged = map (λ kv. kv.1) (order.shuffle (Str × FunderCount) 0 counts) in
    let sorted = sort_by-IsSorted count_less count_less_asym not-count_less_trans ranged in
    let all = leading-select census.top_funders sorted in
    (
      all,
      ap length all ∙ length-select-perm is_shared (sort_by-perm count_less ranged),
      headline-leading census (select is_shared census.top_funders) wallet_count (
          all
          ∙ sym (
              leading-All (select is_shared census.top_funders)
                (select-Shared census.top_funders))),
      funder_rows-take 0 5 census.top_funders refl ∙ ap (λ l. map funder_row (take 5 l)) all,
      most-first census.top_funders sorted,
    )

-- ===== src/Score/Cluster.antt =====
-- internal/score/cluster.go: buyers of one token are one cluster when they share a First Funder, or
-- when one funds the other. A pointer that may be nil is an Option; a map range takes the order in
-- which Go happens to walk the map.
pub mod Links
pub mod Owners
pub mod Parents
pub mod Groups
pub mod Counts
pub mod Result
pub mod Members
pub mod Ends
use smart_money_falsifier.Base.{
  ℕ, zero, suc, ◌+◌, ◌-◌, Bool, true, false, not, ◌&&◌, Option, none, some, List, [], ◌∷◌, ◌++◌,
  map, if◌then◌else◌, ltb, ◌==◌, length, get_or, select, any, fold, enumerate, Str, str_eq, str_lt,
  Dict, lookup, lookup_or, insert, str_key, nat_eq, MapOrder, sort_by,
}
use smart_money_falsifier.Float.{Float64}
use smart_money_falsifier.Score.UnionFind.{find, union, identity}

pub record Funder : Type 0 where
  pub address : Str
  pub label : Str

pub record BuyerInput (W : Type 0) : Type 0 where
  pub address : Str
  pub label : Str
  pub pnl_usd : W
  pub win_rate : W
  pub funders : List Funder
  pub funder_checked : Bool

pub record ClusterGroup (W : Type 0) : Type 0 where
  pub members : List (BuyerInput W)
  pub shared_funder : Option Funder
  pub via_buyer : Str
  pub no_funder_data : Bool

pub record ClusterResult (W : Type 0) : Type 0 where
  pub n : ℕ
  pub m : ℕ
  pub covered : ℕ
  pub clusters : List (ClusterGroup W)

abbrev pub zero_buyer : {W : Type 0} ⦃f : Float64 W⦄ → BuyerInput W
zero_buyer ⦃f⦄ = record {
  address = [];
  label = [];
  pnl_usd = f.zero;
  win_rate = f.zero;
  funders = [];
  funder_checked = false;
}

-- `union(owners[0], owners[k])` for each k from 1
unfoldable pub union_owners : List ℕ → List ℕ → List ℕ
union_owners parent [] = parent
union_owners parent (first ∷ rest) = fold (λ p k. union p first k) parent rest

unfoldable pub union_shared : List ℕ → List (Str × List ℕ) → List ℕ
unfolding union_owners
union_shared parent ranged = fold (λ p entry. union_owners p entry.1) parent ranged

abbrev pub is_member : List ℕ → ℕ → Bool
is_member members i = any (λ mi. mi == i) members

-- `funderOwners[f.Address] = append(funderOwners[f.Address], i)`
unfoldable pub own : ℕ → Dict Str (List ℕ) → Funder → Dict Str (List ℕ)
own i owners funder = insert funder.address (lookup_or funder.address [] owners ++ i ∷ []) owners

-- `if j, ok := idx[f.Address]; ok && j != i { union(i, j) }`
unfoldable pub union_funder : Dict Str ℕ → ℕ → List ℕ → Funder → List ℕ
union_funder idx i parent funder = elim (lookup funder.address idx) [
  | none ↦ parent
  | some j ↦ if j == i then parent else union parent i j
]

module _ {W : Type 0} where
  -- `idx`: the last buyer with an address.
  unfoldable pub index_buyers : List (BuyerInput W) → Dict Str ℕ
  index_buyers buyers = fold (λ idx ib. insert ib.1.address ib.0 idx) [] (enumerate buyers)

  unfoldable pub count_covered : List (BuyerInput W) → ℕ
  count_covered buyers = length (select (λ b. b.funder_checked) buyers)

  unfoldable pub funder_owners : List (BuyerInput W) → Dict Str (List ℕ)
  unfolding own
  funder_owners buyers =
      fold (λ owners ib. fold (own ib.0) owners ib.1.funders) [] (enumerate buyers)

  unfoldable pub union_buyers : Dict Str ℕ → List ℕ → List (BuyerInput W) → List ℕ
  unfolding union_funder
  union_buyers idx parent buyers =
      fold (λ p ib. fold (union_funder idx ib.0) p ib.1.funders) parent (enumerate buyers)

  -- `parent` after both loops of unions.
  unfoldable pub parents : MapOrder → List (BuyerInput W) → List ℕ
  unfolding union_shared union_buyers funder_owners index_buyers identity
  parents order buyers =
      let shared =
        union_shared (identity (length buyers))
          (order.shuffle (Str × List ℕ) 0 (funder_owners buyers)) in
      union_buyers (index_buyers buyers) shared buyers

-- `r := find(i); groups[r] = append(groups[r], i)`, for each i
unfoldable pub group_one : List ℕ × Dict ℕ (List ℕ) → ℕ → List ℕ × Dict ℕ (List ℕ)
group_one (parent, groups) i =
    let (p, r) = find (length parent) parent i in
    (p, insert r (lookup_or r [] groups ++ i ∷ []) groups)

unfoldable pub group_all : List ℕ → ℕ → Dict ℕ (List ℕ)
unfolding group_one identity
group_all parent n = (fold group_one (parent, []) (identity n)).1

module _ {W : Type 0} ⦃f : Float64 W⦄ where
  -- `buyers[i]`
  abbrev pub buyer : List (BuyerInput W) → ℕ → BuyerInput W
  buyer buyers i = get_or buyers i zero_buyer

  unfoldable pub sort_members : List (BuyerInput W) → List ℕ → List ℕ
  sort_members buyers members =
      sort_by (λ a b. str_lt (buyer buyers a).address (buyer buyers b).address) members

  -- The last label that an owner in the cluster gives to the funder.
  unfoldable pub shared_label : List (BuyerInput W) → Str → List ℕ → Str
  shared_label buyers fa owners =
      fold
        (λ label o.
          fold (λ l ff. if str_eq ff.address fa && not (str_eq ff.label []) then ff.label else l)
            label (buyer buyers o).funders)
        [] owners

  -- The first funder, in the order of the range, that two owners in the cluster claim.
  unfoldable pub find_shared : List (BuyerInput W) → List ℕ → List (Str × List ℕ) → Option Funder
  unfolding shared_label
  find_shared buyers members [] = none
  find_shared buyers members ((fa, owners) ∷ rest) =
      let inside = select (is_member members) owners in
      if ltb (length inside) 2
      then find_shared buyers members rest
      else some (record { address = fa; label = shared_label buyers fa inside })

  -- The first funder of `mi` that is a buyer in the cluster; `none` when no `break` is reached.
  unfoldable pub via_funders : List (BuyerInput W) → Dict Str ℕ → List ℕ → List Funder → Option Str
  via_funders buyers idx members [] = none
  via_funders buyers idx members (ff ∷ rest) =
      let later = via_funders buyers idx members rest in
      elim (lookup ff.address idx) [
        | none ↦ later
        | some j ↦ if is_member members j then some (buyer buyers j).address else later
      ]

  -- The outer loop goes on while `c.ViaBuyer` is empty.
  unfoldable pub find_via : List (BuyerInput W) → Dict Str ℕ → List ℕ → List ℕ → Str
  unfolding via_funders
  find_via buyers idx members [] = []
  find_via buyers idx members (mi ∷ rest) =
      let later = find_via buyers idx members rest in
      elim (via_funders buyers idx members (buyer buyers mi).funders) [
        | none ↦ later
        | some address ↦ if str_eq address [] then later else address
      ]

  -- One pass of the loop over `groups`.
  unfoldable pub make_group : MapOrder → List (BuyerInput W) → ℕ × List ℕ → ClusterGroup W
  unfolding sort_members find_shared find_via funder_owners index_buyers
  make_group order buyers (root, unsorted) =
      let members = sort_members buyers unsorted in
      let shared =
        find_shared buyers members
          (order.shuffle (Str × List ℕ) (2 + root) (funder_owners buyers)) in
      let via = find_via buyers (index_buyers buyers) members members in
      let alone = length members == 1 in
      record {
        members = map (buyer buyers) members;
        shared_funder = if alone then none else shared;
        via_buyer = if alone then [] else elim shared [ some funder ↦ [] | none ↦ via ];
        no_funder_data = alone && not (buyer buyers (get_or members 0 0)).funder_checked;
      }

  -- Most members first, then by the first member's address.
  unfoldable pub group_less : ClusterGroup W → ClusterGroup W → Bool
  group_less a b =
      if length a.members == length b.members
      then str_lt (get_or a.members 0 zero_buyer).address (get_or b.members 0 zero_buyer).address
      else ltb (length b.members) (length a.members)

  unfoldable pub cluster : MapOrder → List (BuyerInput W) → ClusterResult W
  unfolding parents group_all make_group group_less count_covered
  cluster order [] = record { n = 0; m = 0; covered = 0; clusters = [] }
  cluster order (b ∷ bs) =
      let buyers = b ∷ bs in
      let groups = group_all (parents order buyers) (length buyers) in
      let clusters =
        sort_by group_less (map (make_group order buyers) (order.shuffle (ℕ × List ℕ) 1 groups)) in
      record {
        n = length buyers;
        m = length clusters;
        covered = count_covered buyers;
        clusters = clusters;
      }

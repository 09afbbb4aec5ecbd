-- ===== src/Score/Cluster/Ends.antt =====
-- internal/score/cluster.go: the recursion of `find` ends.
use smart_money_falsifier.Base.{
  ℕ, zero, suc, ◌+◌, ◌<◌, ◌≡◌, refl, ap, subst, inl, inr, Bool-cases, List, ◌==◌, length, MapOrder,
  arith,
}
use smart_money_falsifier.Float.{Float64}
use smart_money_falsifier.Score.UnionFind.{find, compress}
use smart_money_falsifier.Score.UnionFind.Forest.{Forest, up, find-Forest}
use smart_money_falsifier.Score.UnionFind.Union.{depth_lt}
use smart_money_falsifier.Score.Cluster.{BuyerInput, parents}
use smart_money_falsifier.Score.Cluster.Parents.{parents-Tracks}

-- Any two numbers of rounds that reach the root come to the same.
find-enough :
    {n : ℕ} {p : List ℕ} {rep h : ℕ → ℕ} (t : Forest n p rep h) (fuel fuel' x : ℕ)
    → x < n
    → h x < fuel
    → h x < fuel'
    → find fuel p x ≡ find fuel' p x
unfolding find
find-enough t zero fuel' x lt deep deep' = absurd (omega arith)
find-enough t (suc fuel) zero x lt deep deep' = absurd (omega arith)
find-enough {p} {h} t (suc fuel) (suc fuel') x lt deep deep' = elim (Bool-cases (up p x == x)) [
  | inl e ↦ rw (find, e) refl
  | inr e ↦
      let nearer = t.falls x lt (λ q. absurd (ground (arith, e, q))) in
      rw (find, e)
        (ap (compress x) (
          find-enough t fuel fuel' (up p x) (t.inside x lt) (omega (arith, nearer))
            (omega (arith, nearer))))
]

-- `find` comes to a root in at most as many rounds as there are buyers, at every buyer and whatever the
-- unions before it were: what it returns is its own parent, and more rounds would return the same and
-- leave the same parents.
pub find-ends :
    {W : Type 0} ⦃f : Float64 W⦄ (order : MapOrder) (buyers : List (BuyerInput W)) (i more : ℕ)
    → i < length buyers
    → let p = parents order buyers in
      (find (length buyers + more) p i ≡ find (length buyers) p i)
      × (up p (find (length buyers) p i).1 ≡ (find (length buyers) p i).1)
find-ends order buyers i more lt =
    let t = (parents-Tracks order buyers).forest in
    let p = parents order buyers in
    let deep = subst (λ k. (parents-Tracks order buyers).h i < k) t.size (depth_lt t i lt) in
    let root = (find-Forest (length buyers) p i t lt deep).1 in
    (
      find-enough t (length buyers + more) (length buyers) i lt (omega (arith, deep)) deep,
      rw root (t.rep_root i lt),
    )

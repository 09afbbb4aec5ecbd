-- ===== src/Score/UnionFind.antt =====
-- internal/score/cluster.go, the union-find inside Cluster: the slice `parent` and the closures
-- `find` and `union`. `find` takes as much fuel as there are slots: UnionFind/Forest shows that a
-- chain of parents is always shorter.
pub mod Forest
pub mod Union
pub mod Joined
use smart_money_falsifier.Base.{
  ℕ, zero, suc, ◌+◌, Bool, true, false, List, [], ◌∷◌, if◌then◌else◌, ◌==◌, length, get_or, set,
}

-- `parent[x] = find(parent[x])`, after the recursive call
abbrev pub compress : ℕ → List ℕ × ℕ → List ℕ × ℕ
compress x (parent, root) = (set parent x root, root)

unfoldable pub find : ℕ → List ℕ → ℕ → List ℕ × ℕ
find zero parent x = (parent, x)
find (suc fuel) parent x = elim (get_or parent x x == x) [
  | true ↦ (parent, x)
  | false ↦ compress x (find fuel parent (get_or parent x x))
]

unfoldable pub union : List ℕ → ℕ → ℕ → List ℕ
union parent a b =
    let (p, ra) = find (length parent) parent a in
    let (q, rb) = find (length parent) p b in if ra == rb then q else set q rb ra

-- `for i := range parent { parent[i] = i }`
unfoldable pub range_from : ℕ → ℕ → List ℕ
range_from start zero = []
range_from start (suc n) = start ∷ range_from (start + 1) n

unfoldable pub identity : ℕ → List ℕ
unfolding range_from
identity n = range_from 0 n

-- ===== src/Score/UnionFind/Joined.antt =====
-- A run of unions computes the components of the graph of the pairs that it was given.
use smart_money_falsifier.Base.{
  ℕ, zero, suc, ◌+◌, ◌≤◌, ◌<◌, ◌≡◌, refl, sym, ap, ◌⊎◌, ◌∙◌, ◌≢◌, ◌↔◌, inl, inr, List, [], ◌∷◌,
  ◌++◌, Memᴰ, All, All-mem, All-append, All-map, fold, subst, ltb, Distinct, Bool-cases, length,
  arith, get_or, if◌then◌else◌, ◌==◌, ==_iff,
}
use mathlib.Core.List.{append_assoc, append-nil}
use mathlib.Core.List.Memᴰ
use smart_money_falsifier.Score.UnionFind.{union, identity, range_from}
use smart_money_falsifier.Score.UnionFind.Forest.{Forest, up, count_roots}
use smart_money_falsifier.Score.UnionFind.Union.{United, union-United}

-- Joined by a path of pairs, in either direction.
pub data Joined (R : ℕ → ℕ → Type 0) : ℕ → ℕ → Type 0 where
  here : {x : ℕ} → Joined R x x
  link : {x y : ℕ} → R x y → Joined R x y
  back : {x y : ℕ} → Joined R x y → Joined R y x
  through : {x y z : ℕ} → Joined R x y → Joined R y z → Joined R x z

pub Joined-map :
    {R S : ℕ → ℕ → Type 0} {x y : ℕ}
    → ((a b : ℕ) → R a b → Joined S a b)
    → Joined R x y
    → Joined S x y
Joined-map f here = here
Joined-map f (link r) = f _ _ r
Joined-map f (back j) = back (Joined-map f j)
Joined-map f (through j k) = through (Joined-map f j) (Joined-map f k)

-- What respects every pair respects the paths.
pub Joined-eq :
    {R : ℕ → ℕ → Type 0} {x y : ℕ} (g : ℕ → ℕ)
    → ((a b : ℕ) → R a b → g a ≡ g b)
    → Joined R x y
    → g x ≡ g y
Joined-eq g f here = refl
Joined-eq g f (link r) = f _ _ r
Joined-eq g f (back j) = sym (Joined-eq g f j)
Joined-eq g f (through j k) = Joined-eq g f j ∙ Joined-eq g f k

-- A path between two different ends has a pair with different ends.
pub Joined-cases :
    {R : ℕ → ℕ → Type 0} {x y : ℕ} → Joined R x y → (x ≡ y) ⊎ ((u : ℕ) × (v : ℕ) × R u v × (u ≢ v))
Joined-cases here = inl refl
Joined-cases (link {x = x} {y = y} r) = elim (Bool-cases (x == y)) [
  | inl t ↦ inl ((==_iff x y).0 t)
  | inr t ↦ inr (x, y, r, ground arith)
]
Joined-cases (back j) = elim (Joined-cases j) [ inl e ↦ inl (sym e) | inr p ↦ inr p ]
Joined-cases (through j k) = elim (Joined-cases j) [
  | inl e ↦ elim (Joined-cases k) [ inl d ↦ inl (e ∙ d) | inr p ↦ inr p ]
  | inr p ↦ inr p
]

abbrev pub Pairs : List (ℕ × ℕ) → ℕ → ℕ → Type 0
Pairs es x y = Memᴰ (x, y) es

abbrev pub union_all : List ℕ → List (ℕ × ℕ) → List ℕ
union_all = fold (λ p e. union p e.0 e.1)

-- `p` stands for the components of the pairs `es`.
pub record Tracks (n : ℕ) (es : List (ℕ × ℕ)) (p : List ℕ) : Type 0 where
  pub rep : ℕ → ℕ
  pub h : ℕ → ℕ
  pub forest : Forest n p rep h
  pub sound : (x y : ℕ) → x < n → y < n → rep x ≡ rep y → Joined (Pairs es) x y
  pub complete : All (λ e. rep e.0 ≡ rep e.1) es

Joined-append :
    {es : List (ℕ × ℕ)} {x y : ℕ} (fs : List (ℕ × ℕ))
    → Joined (Pairs es) x y
    → Joined (Pairs (es ++ fs)) x y
Joined-append fs = Joined-map (λ a b m. link (Memᴰ.append_left fs m))

union-Tracks :
    {n : ℕ} {p : List ℕ} (es : List (ℕ × ℕ)) (a b : ℕ)
    → Tracks n es p
    → a < n
    → b < n
    → Tracks n (es ++ (a, b) ∷ []) (union p a b)
union-Tracks {n} {p} es a b t la lb = record {
  rep = u.rep';
  h = u.h';
  forest = u.forest;
  sound = λ x y lx ly e. elim (u.only x y e) [
    | inl k ↦ old x y lx ly k
    | inr (inl k) ↦ through (old x a lx la k.0) (through new (back (old y b ly lb k.1)))
    | inr (inr k) ↦ through (old x b lx lb k.0) (through (back new) (back (old y a ly la k.1)))
  ];
  complete =
      All-append _ es ((a, b) ∷ []) (All-map es (λ e. u.keeps e.0 e.1) t.complete) (u.joins, tt);
}
  where
    u : United n (union p a b) t.rep t.h a b
    u = union-United a b t.forest la lb

    old : (x y : ℕ) → x < n → y < n → t.rep x ≡ t.rep y → Joined (Pairs (es ++ (a, b) ∷ [])) x y
    old x y lx ly k = Joined-append ((a, b) ∷ []) (t.sound x y lx ly k)

    new : Joined (Pairs (es ++ (a, b) ∷ [])) a b
    new = link (Memᴰ.append_right es (Memᴰ.head refl))

-- Both ends of a pair are slots.
abbrev pub IsWithin : ℕ → List (ℕ × ℕ) → Type 0
IsWithin n = All (λ e. (e.0 < n) × (e.1 < n))

pub union_all-Tracks :
    {n : ℕ} (p : List ℕ) (es fs : List (ℕ × ℕ))
    → Tracks n es p
    → IsWithin n fs
    → Tracks n (es ++ fs) (union_all p fs)
union_all-Tracks {n} p es [] t w = rw append-nil t
union_all-Tracks {n} p es ((a, b) ∷ fs) t w =
    subst (λ l. Tracks n l (union_all (union p a b) fs)) (append_assoc es ((a, b) ∷ []) fs)
      (union_all-Tracks (union p a b) (es ++ (a, b) ∷ []) fs (union-Tracks es a b t w.0.0 w.0.1)
        w.1)

get_or-range_from :
    (start m x d : ℕ) → get_or (range_from start m) x d ≡ (if ltb x m then start + x else d)
unfolding range_from
get_or-range_from start zero x d = ground arith
get_or-range_from start (suc m) zero d = ground arith
get_or-range_from start (suc m) (suc x) d = ground (arith, get_or-range_from (start + 1) m x d)

pub length-range_from : (start m : ℕ) → length (range_from start m) ≡ m
unfolding range_from
length-range_from start zero = refl
length-range_from start (suc m) = ap suc (length-range_from (start + 1) m)

mem-range_from : (start m i : ℕ) → Memᴰ i (range_from start m) → (start ≤ i) × (i < start + m)
unfolding range_from
mem-range_from start zero i k = elim k [ ]
mem-range_from start (suc m) i (Memᴰ.head e) = omega arith
mem-range_from start (suc m) i (Memᴰ.tail k) = omega (arith, mem-range_from (start + 1) m i k)

pub identity-lt : (n i : ℕ) → Memᴰ i (identity n) → i < n
unfolding identity
identity-lt n i m = omega (arith, mem-range_from 0 n i m)

range_from-mem : (start m i : ℕ) → start ≤ i → i < start + m → Memᴰ i (range_from start m)
unfolding range_from
range_from-mem start zero i le lt = absurd (omega arith)
range_from-mem start (suc m) i le lt = elim (Bool-cases (start == i)) [
  | inl t ↦ Memᴰ.head (ground arith)
  | inr t ↦ Memᴰ.tail (range_from-mem (start + 1) m i (ground arith) (omega arith))
]

pub identity-mem : (n i : ℕ) → i < n → Memᴰ i (identity n)
unfolding identity
identity-mem n i lt = range_from-mem 0 n i (omega arith) (omega arith)

range_from-Distinct : (start m : ℕ) → Distinct (range_from start m)
unfolding range_from
range_from-Distinct start zero = tt
range_from-Distinct start (suc m) = (
  λ k. absurd (omega (arith, mem-range_from (start + 1) m start k)),
  range_from-Distinct (start + 1) m,
)

pub identity-Distinct : (n : ℕ) → Distinct (identity n)
unfolding identity
identity-Distinct n = range_from-Distinct 0 n

pub length-identity : (n : ℕ) → length (identity n) ≡ n
unfolding identity
length-identity n = length-range_from 0 n

count_roots_id : (m : ℕ) → count_roots m (λ x. x) ≡ m
count_roots_id zero = refl
count_roots_id (suc m) = ground (arith, count_roots_id m)

pub identity-Tracks : (n : ℕ) → Tracks n [] (identity n)
unfolding identity
identity-Tracks n = record {
  rep = λ x. x;
  h = λ x. 0;
  forest = record {
    size = length-range_from 0 n;
    inside = λ x lx. rw (at x) lx;
    rep_inside = λ x lx. lx;
    rep_root = λ x lx. at x;
    rep_up = λ x lx. at x;
    root_rep = λ x lx e. refl;
    falls = λ x lx e. absurd (e (at x));
    above = λ x lx e. absurd (e refl);
    root_low = λ x lx e. refl;
    low = λ x lx. omega (arith, count_roots_id n);
  };
  sound = λ x y lx ly e. subst (Joined (Pairs []) x) e here;
  complete = tt;
}
  where
    at : (x : ℕ) → up (range_from 0 n) x ≡ x
    at x = ground (arith, get_or-range_from 0 n x x)

module _ {n : ℕ} {es : List (ℕ × ℕ)} {p : List ℕ} (t : Tracks n es p) where
  -- Slots have one representative exactly when a path of pairs joins them.
  pub rep_iff : (x y : ℕ) → x < n → y < n → (t.rep x ≡ t.rep y) ↔ Joined (Pairs es) x y
  rep_iff x y lx ly = (
    t.sound x y lx ly,
    Joined-eq t.rep (λ a b m. All-mem (λ e. t.rep e.0 ≡ t.rep e.1) es t.complete m),
  )

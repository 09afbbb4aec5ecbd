-- ===== src/Base/Order.antt =====
-- What a sort gives: the order of the slice that it had before, and of the one that it leaves.
use mathlib.Core.Path.{◌≡◌, refl, ap, sym, ◌∙◌}
use mathlib.Core.Logic.{◌⊎◌, inl, inr}
use mathlib.Core.Bool.{Bool, true, false}
use mathlib.Core.List.Permᴰ
use mathlib.Core.List.{List, [], ◌∷◌, Permᴰ, Memᴰ}
use Prim.Native.Nat.{ℕ, zero, suc}
use native.Mathlib.Omega.{arith}
use smart_money_falsifier.Base.Tests.{Bool-cases}
use smart_money_falsifier.Base.Lists.{
  take, Distinct, All, All-intro, All-mem, Memᴰ-perm, length, select,
}
use smart_money_falsifier.Base.Sort.{insert_by, sort_by, sort_by-perm, IsSorted}

module _ {A : Type 0} (P : A → Type 0) where
  pub All-perm : {xs ys : List A} → Permᴰ xs ys → All P xs → All P ys
  All-perm {xs} {ys} p h = All-intro ys (λ x m. All-mem P xs h (Memᴰ-perm (Permᴰ.symm p) m))

  All-sort_by : (less : A → A → Bool) (xs : List A) → All P xs → All P (sort_by less xs)
  All-sort_by less xs h = All-perm (Permᴰ.symm (sort_by-perm less xs)) h

-- A slice that is sorted by a strict total order does not depend on the order that it had before. The
-- elements may have to meet a condition for the order to be one.
module _ {A : Type 0} (P : A → Type 0) (less : A → A → Bool)
    (irrefl : (x : A) → P x → less x x ≡ false)
    (trans : (x y z : A) → P x → P y → P z → less x y ≡ true → less y z ≡ true → less x z ≡ true)
    (total : (x y : A) → P x → P y → less x y ≡ false → less y x ≡ false → x ≡ y) where
  insert_by_comm :
      (x y : A) (zs : List A)
      → P x
      → P y
      → All P zs
      → insert_by less x (insert_by less y zs) ≡ insert_by less y (insert_by less x zs)
  unfolding insert_by
  insert_by_comm x y [] p q h = grind (arith, trans x y x p q p, irrefl x p, total x y p q)
  insert_by_comm x y (z ∷ zs) p q h = grind (
    arith,
    insert_by_comm x y zs p q h.1,
    trans x y x p q p,
    irrefl x p,
    total x y p q,
    trans z x y h.0 p q,
    trans z y x h.0 q p,
    total z x h.0 p,
    total z y h.0 q,
    trans x z y p h.0 q,
    trans y z x q h.0 p,
  )

  pub sort_by_order_on :
      {xs ys : List A} → Permᴰ xs ys → All P ys → sort_by less xs ≡ sort_by less ys
  unfolding sort_by
  sort_by_order_on Permᴰ.nil h = refl
  sort_by_order_on (Permᴰ.cons e p) h = rw e (ap (insert_by less _) (sort_by_order_on p h.1))
  sort_by_order_on (Permᴰ.swap e f) h =
      rw (e, f) (insert_by_comm _ _ _ h.1.0 h.0 (All-sort_by P less _ h.1.1))
  sort_by_order_on (Permᴰ.trans p q) h =
      sort_by_order_on p (All-perm P (Permᴰ.symm q) h) ∙ sort_by_order_on q h

module _ {A : Type 0} (less : A → A → Bool) (irrefl : (x : A) → less x x ≡ false)
    (trans : (x y z : A) → less x y ≡ true → less y z ≡ true → less x z ≡ true)
    (total : (x y : A) → less x y ≡ false → less y x ≡ false → x ≡ y) where
  pub sort_by_order : {xs ys : List A} → Permᴰ xs ys → sort_by less xs ≡ sort_by less ys
  sort_by_order {ys} p =
      sort_by_order_on (λ x. Unit) less (λ x _. irrefl x) (λ x y z _ _ _. trans x y z)
        (λ x y _ _. total x y) p (All-intro ys (λ x m. tt))

-- A comparison that is asymmetric and whose failures chain sorts as it says, again among elements that
-- meet a condition.
module _ {A : Type 0} (P : A → Type 0) (less : A → A → Bool)
    (asym : (x y : A) → P x → P y → less x y ≡ true → less y x ≡ false)
    (not-less_trans : (x y z : A)
      → P x
      → P y
      → P z
      → less z y ≡ false
      → less y x ≡ false
      → less z x ≡ false) where
  All-insert_by :
      (Q : A → Type 0) (x : A) (ys : List A) → Q x → All Q ys → All Q (insert_by less x ys)
  unfolding insert_by
  All-insert_by Q x [] p h = (p, tt)
  All-insert_by Q x (y ∷ ys) p h = elim (Bool-cases (less y x)) [
    | inl e ↦ rw e (h.0, All-insert_by Q x ys p h.1)
    | inr e ↦ rw e (p, h)
  ]

  All-not-less :
      (x y : A) (zs : List A)
      → P x
      → P y
      → All P zs
      → less y x ≡ false
      → All (λ z. less z y ≡ false) zs
      → All (λ z. less z x ≡ false) zs
  All-not-less x y [] p q h e k = tt
  All-not-less x y (z ∷ zs) p q h e k =
      (not-less_trans x y z p q h.0 k.0 e, All-not-less x y zs p q h.1 e k.1)

  insert_by-IsSorted :
      (x : A) (ys : List A)
      → P x
      → All P ys
      → IsSorted less ys
      → IsSorted less (insert_by less x ys)
  unfolding insert_by
  insert_by-IsSorted x [] p q h = (tt, tt)
  insert_by-IsSorted x (y ∷ ys) p q h = elim (Bool-cases (less y x)) [
    | inl e ↦ rw e (
      All-insert_by (λ z. less z y ≡ false) x ys (asym y x q.0 p e) h.0,
      insert_by-IsSorted x ys p q.1 h.1,
    )
    | inr e ↦ rw e ((e, All-not-less x y ys p q.0 q.1 e h.0), h)
  ]

  pub sort_by-IsSorted_on : (xs : List A) → All P xs → IsSorted less (sort_by less xs)
  unfolding sort_by
  sort_by-IsSorted_on [] h = tt
  sort_by-IsSorted_on (x ∷ xs) h =
      insert_by-IsSorted x (sort_by less xs) h.0 (All-sort_by P less xs h.1)
        (sort_by-IsSorted_on xs h.1)

module _ {A : Type 0} (less : A → A → Bool) (asym : (x y : A) → less x y ≡ true → less y x ≡ false)
    (not-less_trans : (x y z : A) → less z y ≡ false → less y x ≡ false → less z x ≡ false) where
  pub sort_by-IsSorted : (xs : List A) → IsSorted less (sort_by less xs)
  sort_by-IsSorted xs =
      sort_by-IsSorted_on (λ x. Unit) less (λ x y _ _. asym x y)
        (λ x y z _ _ _. not-less_trans x y z) xs (All-intro xs (λ x m. tt))

-- Of a sorted list, an element is among the first ones or not less than any of them.
module _ {A : Type 0} (less : A → A → Bool) where
  pub take-IsSorted :
      (n : ℕ) (l : List A) {x y : A}
      → IsSorted less l
      → Memᴰ x (take n l)
      → Memᴰ y l
      → Memᴰ y (take n l) ⊎ (less y x ≡ false)
  take-IsSorted zero l h m k = elim m [ ]
  take-IsSorted (suc n) [] h m k = elim m [ ]
  take-IsSorted (suc n) (z ∷ l) h m (Memᴰ.head e) = inl (Memᴰ.head e)
  take-IsSorted (suc n) (z ∷ l) {y} h (Memᴰ.head e) (Memᴰ.tail k) =
      inr (rw e (All-mem (λ v. less v z ≡ false) l h.0 k))
  take-IsSorted (suc n) (z ∷ l) h (Memᴰ.tail m) (Memᴰ.tail k) = elim (take-IsSorted n l h.1 m k) [
    | inl t ↦ inl (Memᴰ.tail t)
    | inr e ↦ inr e
  ]

-- How many elements pass a test does not depend on their order.
module _ {A : Type 0} (p : A → Bool) where
  pub length-select-perm :
      {xs ys : List A} → Permᴰ xs ys → length (select p xs) ≡ length (select p ys)
  length-select-perm Permᴰ.nil = refl
  length-select-perm (Permᴰ.cons e q) = rw e (ground (arith, length-select-perm q))
  length-select-perm (Permᴰ.swap e f) = rw (e, f) (ground arith)
  length-select-perm (Permᴰ.trans q r) = length-select-perm q ∙ length-select-perm r

-- The first elements, and a list without a second copy of an element.
module _ {A : Type 0} where
  pub mem-take : {x : A} (n : ℕ) (xs : List A) → Memᴰ x (take n xs) → Memᴰ x xs
  mem-take zero xs m = elim m [ ]
  mem-take (suc n) [] m = elim m [ ]
  mem-take (suc n) (y ∷ ys) (Memᴰ.head e) = Memᴰ.head e
  mem-take (suc n) (y ∷ ys) (Memᴰ.tail m) = Memᴰ.tail (mem-take n ys m)

  pub take-Distinct : (n : ℕ) (xs : List A) → Distinct xs → Distinct (take n xs)
  take-Distinct zero xs d = tt
  take-Distinct (suc n) [] d = tt
  take-Distinct (suc n) (x ∷ xs) d = (λ m. d.0 (mem-take n xs m), take-Distinct n xs d.1)

  Distinct-swap : (x y : A) (l : List A) → Distinct (x ∷ y ∷ l) → Distinct (y ∷ x ∷ l)
  Distinct-swap x y l d = (
    λ m. elim m [ Memᴰ.head e ↦ d.0 (Memᴰ.head (sym e)) | Memᴰ.tail n ↦ d.1.0 n ],
    (λ m. d.0 (Memᴰ.tail m), d.1.1),
  )

  pub Distinct-perm : {xs ys : List A} → Permᴰ xs ys → Distinct xs → Distinct ys
  Distinct-perm Permᴰ.nil d = tt
  Distinct-perm (Permᴰ.cons e p) d =
      (λ m. d.0 (rw e (Memᴰ-perm (Permᴰ.symm p) m)), Distinct-perm p d.1)
  Distinct-perm (Permᴰ.swap e f) d = rw (sym e, sym f) (Distinct-swap _ _ _ d)
  Distinct-perm (Permᴰ.trans p q) d = Distinct-perm q (Distinct-perm p d)

-- Every element of a list before all that stand after it.
module _ {A : Type 0} (R : A → A → Type 0) where
  abbrev pub IsOrderedBy : List A → Type 0
  IsOrderedBy [] = Unit
  IsOrderedBy (x ∷ xs) = All (R x) xs × IsOrderedBy xs

  pub IsOrderedBy-sorted :
      (P : A → Type 0) (less : A → A → Bool)
      → ((x y : A) → P x → P y → less y x ≡ false → R x y)
      → (xs : List A) → All P xs
      → IsSorted less xs
      → IsOrderedBy xs
  IsOrderedBy-sorted P less step [] p h = tt
  IsOrderedBy-sorted P less step (x ∷ xs) p h = (
    All-intro xs
        (λ y m. step x y p.0 (All-mem P xs p.1 m) (All-mem (λ z. less z x ≡ false) xs h.0 m)),
    IsOrderedBy-sorted P less step xs p.1 h.1,
  )

-- What holds of a list holds of the elements that pass a test.
module _ {A : Type 0} (P : A → Type 0) (p : A → Bool) where
  pub All-select : (xs : List A) → All P xs → All P (select p xs)
  All-select [] h = tt
  All-select (x ∷ xs) h = elim (Bool-cases (p x)) [
    | inl t ↦ rw t (h.0, All-select xs h.1)
    | inr t ↦ rw t (All-select xs h.1)
  ]

-- ===== src/Base/Lists.antt =====
-- Slices as lists, measured and indexed by native numbers, under the library's names.
use Prim.Native.Nat.{ℕ, zero, suc, ◌+◌, ◌≤◌, ◌<◌, min}
use mathlib.Core.Path.{◌≡◌, refl, ap, sym, subst, ◌∙◌}
use mathlib.Core.Logic.{◌≢◌, inl, inr}
use mathlib.Core.Bool.{Bool, true, false, ◌||◌}
use mathlib.Core.List.{List, [], ◌∷◌, ◌++◌, map, Memᴰ, Permᴰ}
use native.Mathlib.Omega.{arith}
use smart_money_falsifier.Base.Tests.{if◌then◌else◌, Bool-cases}

module _ {ℓ} {A : Type ℓ} where
  abbrev pub length : List A → ℕ
  length [] = 0
  length (_ ∷ xs) = suc (length xs)

  abbrev pub get_or : List A → ℕ → A → A
  get_or [] i d = d
  get_or (x ∷ xs) zero d = x
  get_or (x ∷ xs) (suc i) d = get_or xs i d

  -- A write out of bounds changes nothing.
  abbrev pub set : List A → ℕ → A → List A
  set [] i v = []
  set (x ∷ xs) zero v = v ∷ xs
  set (x ∷ xs) (suc i) v = x ∷ set xs i v

  -- `s[:n]`
  abbrev pub take : ℕ → List A → List A
  take zero xs = []
  take (suc n) [] = []
  take (suc n) (x ∷ xs) = x ∷ take n xs

  -- `s[n:]`
  abbrev pub drop : ℕ → List A → List A
  drop zero xs = xs
  drop (suc n) [] = []
  drop (suc n) (x ∷ xs) = drop n xs

  abbrev pub flat_map {κ} : {B : Type κ} → (A → List B) → List A → List B
  flat_map f [] = []
  flat_map f (x ∷ xs) = f x ++ flat_map f xs

  -- The elements that pass a test, in order.
  abbrev pub select : (A → Bool) → List A → List A
  select p [] = []
  select p (x ∷ xs) = if p x then x ∷ select p xs else select p xs

  abbrev pub any : (A → Bool) → List A → Bool
  any p [] = false
  any p (x ∷ xs) = p x || any p xs

  -- A `for range` loop over its mutable variables.
  abbrev pub fold {κ} : {S : Type κ} → (S → A → S) → S → List A → S
  fold f s [] = s
  fold f s (x ∷ xs) = fold f (f s x) xs

  -- `for i, x := range xs`: the elements with their indices.
  abbrev pub enumerate_from : ℕ → List A → List (ℕ × A)
  enumerate_from i [] = []
  enumerate_from i (x ∷ xs) = (i, x) ∷ enumerate_from (suc i) xs

  abbrev pub enumerate : List A → List (ℕ × A)
  enumerate xs = enumerate_from 0 xs

  abbrev pub All {κ} : (A → Type κ) → List A → Type κ
  All P [] = Unit
  All P (x ∷ xs) = P x × All P xs

  -- No element stands in the list twice.
  abbrev pub Distinct : List A → Type ℓ
  Distinct [] = Unit
  Distinct (x ∷ xs) = ¬ Memᴰ x xs × Distinct xs

module _ {ℓ} {A : Type ℓ} where
  pub length-append : (xs ys : List A) → length (xs ++ ys) ≡ length xs + length ys
  length-append [] ys = omega arith
  length-append (x ∷ xs) ys = omega (arith, length-append xs ys)

  pub length-map {κ} : {B : Type κ} (f : A → B) (xs : List A) → length (map f xs) ≡ length xs
  length-map f [] = refl
  length-map f (x ∷ xs) = ap suc (length-map f xs)

  pub length-set : (xs : List A) (i : ℕ) (v : A) → length (set xs i v) ≡ length xs
  length-set [] i v = refl
  length-set (x ∷ xs) zero v = refl
  length-set (x ∷ xs) (suc i) v = ap suc (length-set xs i v)

  pub get_or-set_self :
      (xs : List A) (i : ℕ) (v d : A) → i < length xs → get_or (set xs i v) i d ≡ v
  get_or-set_self [] i v d h = absurd (omega arith)
  get_or-set_self (x ∷ xs) zero v d h = refl
  get_or-set_self (x ∷ xs) (suc i) v d h = get_or-set_self xs i v d (omega arith)

  pub get_or-set_ne :
      (xs : List A) (i j : ℕ) (v d : A) → i ≢ j → get_or (set xs i v) j d ≡ get_or xs j d
  get_or-set_ne [] i j v d h = refl
  get_or-set_ne (x ∷ xs) zero zero v d h = absurd (h refl)
  get_or-set_ne (x ∷ xs) zero (suc j) v d h = refl
  get_or-set_ne (x ∷ xs) (suc i) zero v d h = refl
  get_or-set_ne (x ∷ xs) (suc i) (suc j) v d h = get_or-set_ne xs i j v d (λ e. h (ap suc e))

  pub get_or_past : (xs : List A) (i : ℕ) (d : A) → length xs ≤ i → get_or xs i d ≡ d
  get_or_past [] i d h = refl
  get_or_past (x ∷ xs) zero d h = absurd (omega arith)
  get_or_past (x ∷ xs) (suc i) d h = get_or_past xs i d (omega arith)

  pub length-take : (n : ℕ) (xs : List A) → length (take n xs) ≡ min n (length xs)
  length-take zero xs = omega arith
  length-take (suc n) [] = omega arith
  length-take (suc n) (x ∷ xs) = omega (arith, length-take n xs)

  pub fold-append {κ} :
      {S : Type κ} (f : S → A → S) (s : S) (xs ys : List A)
      → fold f s (xs ++ ys) ≡ fold f (fold f s xs) ys
  fold-append f s [] ys = refl
  fold-append f s (x ∷ xs) ys = fold-append f (f s x) xs ys

  pub All-append {κ} : (P : A → Type κ) (xs ys : List A) → All P xs → All P ys → All P (xs ++ ys)
  All-append P [] ys hx hy = hy
  All-append P (x ∷ xs) ys hx hy = (hx.0, All-append P xs ys hx.1 hy)

  pub All-mem {κ} : (P : A → Type κ) {x : A} (xs : List A) → All P xs → Memᴰ x xs → P x
  All-mem P [] h m = elim m [ ]
  All-mem P (y ∷ ys) h (Memᴰ.head e) = rw e h.0
  All-mem P (y ∷ ys) h (Memᴰ.tail m) = All-mem P ys h.1 m

  pub All-intro {κ} : {P : A → Type κ} (xs : List A) → ((x : A) → Memᴰ x xs → P x) → All P xs
  All-intro [] f = tt
  All-intro (x ∷ xs) f = (f x (Memᴰ.head refl), All-intro xs (λ y m. f y (Memᴰ.tail m)))

  pub All-map {κ ι} :
      {P : A → Type κ} {Q : A → Type ι} (xs : List A) → ((x : A) → P x → Q x) → All P xs → All Q xs
  All-map [] f h = tt
  All-map (x ∷ xs) f h = (f x h.0, All-map xs f h.1)

  -- `Memᴰ` is untruncated membership: it shows which element it is.
  pub Memᴰ-perm : {x : A} {xs ys : List A} → Permᴰ xs ys → Memᴰ x xs → Memᴰ x ys
  Memᴰ-perm Permᴰ.nil m = elim m [ ]
  Memᴰ-perm (Permᴰ.cons e p) (Memᴰ.head h) = Memᴰ.head (h ∙ e)
  Memᴰ-perm (Permᴰ.cons e p) (Memᴰ.tail m) = Memᴰ.tail (Memᴰ-perm p m)
  Memᴰ-perm (Permᴰ.swap e f) (Memᴰ.head h) = Memᴰ.tail (Memᴰ.head (h ∙ e))
  Memᴰ-perm (Permᴰ.swap e f) (Memᴰ.tail (Memᴰ.head h)) = Memᴰ.head (h ∙ f)
  Memᴰ-perm (Permᴰ.swap e f) (Memᴰ.tail (Memᴰ.tail m)) = Memᴰ.tail (Memᴰ.tail m)
  Memᴰ-perm (Permᴰ.trans p q) m = Memᴰ-perm q (Memᴰ-perm p m)

  pub length-perm : {xs ys : List A} → Permᴰ xs ys → length xs ≡ length ys
  length-perm Permᴰ.nil = refl
  length-perm (Permᴰ.cons e p) = ap suc (length-perm p)
  length-perm (Permᴰ.swap e f) = refl
  length-perm (Permᴰ.trans p q) = length-perm p ∙ length-perm q

  select_hit :
      (p : A → Bool) {x y : A} (ys : List A)
      → (Memᴰ x (select p ys) → Memᴰ x ys × (p x ≡ true))
      → p y ≡ true
      → Memᴰ x (y ∷ select p ys)
      → Memᴰ x (y ∷ ys) × (p x ≡ true)
  select_hit p ys rest e (Memᴰ.head h) = (Memᴰ.head h, rw h e)
  select_hit p ys rest e (Memᴰ.tail m) = let r = rest m in (Memᴰ.tail r.0, r.1)

  pub mem-select :
      (p : A → Bool) {x : A} (xs : List A) → Memᴰ x (select p xs) → Memᴰ x xs × (p x ≡ true)
  mem-select p [] m = elim m [ ]
  mem-select p (y ∷ ys) m = elim (Bool-cases (p y)) [
    | inl e ↦ select_hit p ys (mem-select p ys) e (rw e at m)
    | inr e ↦ let r = mem-select p ys (rw e at m) in (Memᴰ.tail r.0, r.1)
  ]

  pub select-mem :
      (p : A → Bool) {x : A} (xs : List A) → Memᴰ x xs → p x ≡ true → Memᴰ x (select p xs)
  select-mem p [] m e = elim m [ ]
  select-mem p {x} (y ∷ ys) (Memᴰ.head h) e = let k : p y ≡ true = rw (← h) e in rw k (Memᴰ.head h)
  select-mem p (y ∷ ys) (Memᴰ.tail m) e = elim (Bool-cases (p y)) [
    | inl t ↦ rw t (Memᴰ.tail (select-mem p ys m e))
    | inr t ↦ rw t (select-mem p ys m e)
  ]

  pub select-append :
      (p : A → Bool) (xs ys : List A) → select p (xs ++ ys) ≡ select p xs ++ select p ys
  select-append p [] ys = refl
  select-append p (x ∷ xs) ys = ground (arith, select-append p xs ys)

  pub length-select-le : (p : A → Bool) (xs : List A) → length (select p xs) ≤ length xs
  length-select-le p [] = omega arith
  length-select-le p (x ∷ xs) = ground (arith, length-select-le p xs)

  -- An invariant of a loop, whose body may use which elements it meets.
  pub fold_inv {κ ι} :
      {S : Type κ} (P : S → Type ι) (f : S → A → S) (s : S) (xs : List A)
      → ((t : S) (x : A) → Memᴰ x xs → P t → P (f t x))
      → P s
      → P (fold f s xs)
  fold_inv P f s [] keep h = h
  fold_inv P f s (x ∷ xs) keep h =
      fold_inv P f (f s x) xs (λ t y m. keep t y (Memᴰ.tail m)) (keep s x (Memᴰ.head refl) h)

  -- What one round brings about and no round undoes.
  pub fold_hit {κ ι} :
      {S : Type κ} (P : S → Type ι) (f : S → A → S) (s : S) (xs : List A) (x : A)
      → Memᴰ x xs
      → ((t : S) → P (f t x))
      → ((t : S) (y : A) → P t → P (f t y))
      → P (fold f s xs)
  fold_hit P f s [] x m hit keep = elim m [ ]
  fold_hit P f s (y ∷ ys) x (Memᴰ.head e) hit keep =
      fold_inv P f (f s y) ys (λ t z _. keep t z) (rw (← e) (hit s))
  fold_hit P f s (y ∷ ys) x (Memᴰ.tail m) hit keep = fold_hit P f (f s y) ys x m hit keep

  pub get_or-mem : (xs : List A) (i : ℕ) (d : A) → i < length xs → Memᴰ (get_or xs i d) xs
  get_or-mem [] i d lt = absurd (omega arith)
  get_or-mem (x ∷ xs) zero d lt = Memᴰ.head refl
  get_or-mem (x ∷ xs) (suc i) d lt = Memᴰ.tail (get_or-mem xs i d (omega arith))

  pub mem-enumerate_from :
      (s : ℕ) (xs : List A) (d : A) {i : ℕ} {x : A}
      → Memᴰ (i, x) (enumerate_from s xs)
      → (k : ℕ) × (i ≡ s + k) × (k < length xs) × (get_or xs k d ≡ x)
  mem-enumerate_from s [] d m = elim m [ ]
  mem-enumerate_from s (y ∷ ys) d (Memᴰ.head e) =
      (0, omega (arith, ap (λ p. p.0) e), omega arith, sym (ap (λ p. p.1) e))
  mem-enumerate_from s (y ∷ ys) d (Memᴰ.tail m) =
      let (k, e, lt, g) = mem-enumerate_from (suc s) ys d m in (suc k, omega arith, omega arith, g)

  pub enumerate_from-mem :
      (s : ℕ) (xs : List A) (d : A) (k : ℕ)
      → k < length xs
      → Memᴰ (s + k, get_or xs k d) (enumerate_from s xs)
  enumerate_from-mem s [] d k lt = absurd (omega arith)
  enumerate_from-mem s (x ∷ xs) d zero lt = Memᴰ.head (ap (λ (i : ℕ). (i, x)) (omega arith))
  enumerate_from-mem s (x ∷ xs) d (suc k) lt =
      subst (λ i. Memᴰ (i, get_or xs k d) ((s, x) ∷ enumerate_from (suc s) xs)) (omega arith)
        (Memᴰ.tail (enumerate_from-mem (suc s) xs d k (omega arith)))

  pub select-Distinct : (p : A → Bool) (xs : List A) → Distinct xs → Distinct (select p xs)
  select-Distinct p [] d = tt
  select-Distinct p (x ∷ xs) d = elim (Bool-cases (p x)) [
    | inl t ↦ rw t (λ m. d.0 (mem-select p xs m).0, select-Distinct p xs d.1)
    | inr t ↦ rw t (select-Distinct p xs d.1)
  ]

  pub two-le-length : {x y : A} (xs : List A) → Memᴰ x xs → Memᴰ y xs → x ≢ y → 2 ≤ length xs
  two-le-length [] m k ne = elim m [ ]
  two-le-length (z ∷ []) (Memᴰ.head e) (Memᴰ.head g) ne = absurd (ne (e ∙ sym g))
  two-le-length (z ∷ []) (Memᴰ.head e) (Memᴰ.tail k) ne = elim k [ ]
  two-le-length (z ∷ []) (Memᴰ.tail m) k ne = elim m [ ]
  two-le-length (z ∷ w ∷ xs) m k ne = omega arith

  pub get_or-append : (xs ys : List A) (y d : A) → get_or (xs ++ y ∷ ys) (length xs) d ≡ y
  get_or-append [] ys y d = refl
  get_or-append (x ∷ xs) ys y d = get_or-append xs ys y d

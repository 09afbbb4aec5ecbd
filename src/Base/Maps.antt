-- ===== src/Base/Maps.antt =====
-- Go's maps as association lists.
use Prim.Native.Nat.{ℕ}
use mathlib.Core.Path.{◌≡◌, refl, sym, ◌∙◌}
use mathlib.Core.Bool.{true, false, false≢true}
use mathlib.Core.List.{List, [], ◌∷◌, map, Permᴰ, reverse}
use mathlib.Core.List.Permᴰ
use mathlib.Core.Option.{Option, none, some}
use native.Mathlib.Omega.{arith}
use smart_money_falsifier.Base.Tests.{Eq, if◌then◌else◌}

abbrev pub Dict : Type 0 → Type 0 → Type 0
Dict K V = List (K × V)

abbrev pub keys : {K V : Type 0} → Dict K V → List K
keys m = map (λ kv. kv.0) m

abbrev pub values : {K V : Type 0} → Dict K V → List V
values m = map (λ kv. kv.1) m

module _ {K : Type 0} ⦃e : Eq K⦄ where
  pub beq_refl : (k : K) → e.beq k k ≡ true
  beq_refl k = (e.beq_iff k k).1 refl

  pub beq_ne : (j k : K) → e.beq j k ≡ false → ¬ (j ≡ k)
  beq_ne j k h p = false≢true (sym h ∙ (e.beq_iff j k).1 p)

module _ {K V : Type 0} ⦃e : Eq K⦄ where
  unfoldable pub lookup : K → Dict K V → Option V
  lookup k [] = none
  lookup k ((j, v) ∷ m) = if e.beq j k then some v else lookup k m

  -- `m[k] = v`
  unfoldable pub insert : K → V → Dict K V → Dict K V
  insert k v [] = (k, v) ∷ []
  insert k v ((j, w) ∷ m) = if e.beq j k then (j, v) ∷ m else (j, w) ∷ insert k v m

  -- `m[k]`, with the zero value where `k` is missing
  abbrev pub lookup_or : K → V → Dict K V → V
  lookup_or k d m = elim (lookup k m) [ none ↦ d | some v ↦ v ]

  pub lookup-insert :
      (k j : K) (v : V) (m : Dict K V)
      → lookup j (insert k v m) ≡ (if e.beq k j then some v else lookup j m)
  unfolding lookup insert
  lookup-insert k j v [] = refl
  lookup-insert k j v ((i, w) ∷ m) =
      ground (arith, e.beq_iff k j, e.beq_iff i k, e.beq_iff i j, lookup-insert k j v m)

-- The order of the entries each time that the program ranges over a map; the number tells one range
-- from another.
pub record MapOrder : Type 1 where
  pub shuffle : (A : Type 0) → ℕ → List A → List A
  pub shuffle_perm : (A : Type 0) (k : ℕ) (l : List A) → Permᴰ (shuffle A k l) l

abbrev pub in_order : MapOrder
in_order = record { shuffle = λ A k l. l; shuffle_perm = λ A k l. Permᴰ.refl l }

abbrev pub backwards : MapOrder
backwards = record { shuffle = λ A k l. reverse l; shuffle_perm = λ A k l. Permᴰ.reverse l }

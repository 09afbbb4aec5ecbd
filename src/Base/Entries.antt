-- ===== src/Base/Entries.antt =====
-- Laws of the maps: what is in one after an insertion.
use mathlib.Core.Path.{◌≡◌, refl, sym, ap}
use mathlib.Core.Logic.{◌⊎◌, inl, inr}
use mathlib.Core.Bool.{true}
use mathlib.Core.List.{List, [], ◌∷◌, Memᴰ}
use mathlib.Core.List.Memᴰ
use mathlib.Core.Option.{Option, none, some}
use native.Mathlib.Omega.{arith}
use smart_money_falsifier.Base.Tests.{Eq, if◌then◌else◌, Bool-cases}
use smart_money_falsifier.Base.Lists.{All, Distinct}
use smart_money_falsifier.Base.Maps.{Dict, lookup, insert, lookup_or, keys, beq_ne, lookup-insert}

module _ {K V : Type 0} ⦃e : Eq K⦄ where
  pub lookup-mem : (k : K) {v : V} (m : Dict K V) → lookup k m ≡ some v → Memᴰ (k, v) m
  unfolding lookup
  lookup-mem k [] h = absurd (cc h)
  lookup-mem k {v} ((j, w) ∷ m) h = elim (Bool-cases (e.beq j k)) [
    | inl t ↦ Memᴰ.head (found t)
    | inr t ↦ Memᴰ.tail (lookup-mem k m (rw t at h))
  ]
    where
      found : e.beq j k ≡ true → ◌≡◌ {A = K × V} (k, v) (j, w)
      found t = ground (arith, e.beq_iff j k)

  pub All-insert {ℓ} :
      (P : K × V → Type ℓ) (k : K) (v : V) (m : Dict K V)
      → P (k, v)
      → All P m
      → All P (insert k v m)
  unfolding insert
  All-insert P k v [] p h = (p, tt)
  All-insert P k v ((j, w) ∷ m) p h = elim (Bool-cases (e.beq j k)) [
    | inl t ↦ rw t (rw ((e.beq_iff j k).0 t) p, h.1)
    | inr t ↦ rw t (h.0, All-insert P k v m p h.1)
  ]

  mem-keys-insert :
      (k j : K) (v : V) (m : Dict K V) → Memᴰ j (keys (insert k v m)) → (j ≡ k) ⊎ Memᴰ j (keys m)
  unfolding insert
  mem-keys-insert k j v [] (Memᴰ.head h) = inl h
  mem-keys-insert k j v [] (Memᴰ.tail h) = elim h [ ]
  mem-keys-insert k j v ((i, w) ∷ m) h = elim (Bool-cases (e.beq i k)) [
    | inl t ↦ inr (rw t at h)
    | inr t ↦ later (mem-keys-insert k j v m) (rw t at h)
  ]
    where
      later :
          (Memᴰ j (keys (insert k v m)) → (j ≡ k) ⊎ Memᴰ j (keys m))
          → Memᴰ j (i ∷ keys (insert k v m))
          → (j ≡ k) ⊎ Memᴰ j (i ∷ keys m)
      later rest (Memᴰ.head q) = inr (Memᴰ.head q)
      later rest (Memᴰ.tail q) = elim (rest q) [ inl r ↦ inl r | inr r ↦ inr (Memᴰ.tail r) ]

  pub insert-Distinct :
      (k : K) (v : V) (m : Dict K V) → Distinct (keys m) → Distinct (keys (insert k v m))
  unfolding insert
  insert-Distinct k v [] d = (λ h. elim h [ ], tt)
  insert-Distinct k v ((j, w) ∷ m) d = elim (Bool-cases (e.beq j k)) [
    | inl t ↦ rw t d
    | inr t ↦ rw t (
      λ h. elim (mem-keys-insert k j v m h) [ inl r ↦ beq_ne j k t r | inr r ↦ d.0 r ],
      insert-Distinct k v m d.1,
    )
  ]

  pub mem-lookup :
      (k : K) (v : V) (m : Dict K V) → Distinct (keys m) → Memᴰ (k, v) m → lookup k m ≡ some v
  unfolding lookup
  mem-lookup k v [] d h = elim h [ ]
  mem-lookup k v ((j, w) ∷ m) d (Memᴰ.head h) =
      let t : e.beq j k ≡ true = (e.beq_iff j k).1 (sym (ap (λ p. p.0) h)) in
      rw t (ap some (sym (ap (λ p. p.1) h)))
  mem-lookup k v ((j, w) ∷ m) d (Memᴰ.tail h) = elim (Bool-cases (e.beq j k)) [
    | inl t ↦ absurd (d.0 (rw ((e.beq_iff j k).0 t) (Memᴰ.map (λ (p : K × V). p.0) h)))
    | inr t ↦ rw t (mem-lookup k v m d.1 h)
  ]

  pub lookup_or-nil : (k : K) (d : V) → lookup_or k d [] ≡ d
  unfolding lookup
  lookup_or-nil k d = refl

  pub lookup_or-cons :
      (k j : K) (v d : V) (m : Dict K V)
      → lookup_or k d ((j, v) ∷ m) ≡ (if e.beq j k then v else lookup_or k d m)
  unfolding lookup
  lookup_or-cons k j v d m = ground arith

  pub lookup_or-insert :
      (k j : K) (v d : V) (m : Dict K V)
      → lookup_or j d (insert k v m) ≡ (if e.beq k j then v else lookup_or j d m)
  lookup_or-insert k j v d m = ground (arith, lookup-insert k j v m)

module _ {K A : Type 0} ⦃e : Eq K⦄ where
  -- A value that a lookup finds stands in an entry.
  pub lookup_or-mem :
      (k : K) (m : Dict K (List A)) (x : A)
      → Memᴰ x (lookup_or k [] m)
      → (l : List A) × Memᴰ (k, l) m × (lookup_or k [] m ≡ l)
  lookup_or-mem k m x h = found (lookup k m) refl h
    where
      found :
          (o : Option (List A))
          → lookup k m ≡ o
          → Memᴰ x (elim o [ none ↦ [] | some v ↦ v ])
          → (l : List A) × Memᴰ (k, l) m × (lookup_or k [] m ≡ l)
      found none q h = elim h [ ]
      found (some l) q h = (l, lookup-mem k m q, rw (q, lookup_or))

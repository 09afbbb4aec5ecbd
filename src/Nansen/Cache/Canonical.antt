-- ===== src/Nansen/Cache/Canonical.antt =====
-- internal/nansen/cache.go, marshalCanonical: the text does not depend on the order of the fields.
use mathlib.Core.List.Permᴰ
use smart_money_falsifier.Base.{
  ◌≡◌, refl, sym, ap, ◌∙◌, List, [], ◌∷◌, ◌++◌, map, Memᴰ, Permᴰ, Distinct, arith, Str, str_lt,
  str_lt_irrefl, str_lt_trans, str_lt_total, str_key, join, keys, Dict, lookup, lookup_or,
  sort_by_order, str_eq_iff, Memᴰ-perm,
}
use smart_money_falsifier.Nansen.Cache.{
  Json, Items, Fields, array, object, no_items, item, no_fields, field, JsonText, member_text,
  object_text, marshal_canonical, marshal_items, marshal_fields,
}

-- The keys of an object's fields.
abbrev pub field_keys : Fields → List Str
field_keys no_fields = []
field_keys (field k x fs) = k ∷ field_keys fs

-- Equal but for the order in which the fields of an object come, at any depth.
mutual
  pub data SameJson : Json → Json → Type 0 where
    same : (x : Json) → SameJson x x
    arrays : {xs ys : Items} → SameItems xs ys → SameJson (array xs) (array ys)
    objects :
        {fs gs : Fields}
        → Distinct (field_keys fs)
        → SameFields fs gs
        → SameJson (object fs) (object gs)

  pub data SameItems : Items → Items → Type 0 where
    done : SameItems no_items no_items
    more :
        {x y : Json} {xs ys : Items}
        → SameJson x y
        → SameItems xs ys
        → SameItems (item x xs) (item y ys)

  pub data SameFields : Fields → Fields → Type 0 where
    empty : SameFields no_fields no_fields
    next :
        {x y : Json} {fs gs : Fields} (k : Str)
        → SameJson x y
        → SameFields fs gs
        → SameFields (field k x fs) (field k y gs)
    swapped :
        (j k : Str) (x y : Json) (fs : Fields)
        → SameFields (field j x (field k y fs)) (field k y (field j x fs))
    after : {fs gs hs : Fields} → SameFields fs gs → SameFields gs hs → SameFields fs hs

swap_away : {l : List Str} {a b : Str} → ¬ Memᴰ b l → ¬ (b ≡ a) → ¬ Memᴰ b (a ∷ l)
swap_away away apart (Memᴰ.head q) = apart q
swap_away away apart (Memᴰ.tail m) = away m

swapped_Distinct :
    {l : List Str} {a b c d : Str} → a ≡ d → b ≡ c → Distinct (a ∷ b ∷ l) → Distinct (c ∷ d ∷ l)
swapped_Distinct e f h =
    rw (← e, ← f) (swap_away h.1.0 (λ q. h.0 (Memᴰ.head (sym q))), (λ m. h.0 (Memᴰ.tail m), h.1.1))

Distinct-perm : {xs ys : List Str} → Permᴰ xs ys → Distinct xs → Distinct ys
Distinct-perm Permᴰ.nil d = tt
Distinct-perm (Permᴰ.cons e p) d =
    (λ m. d.0 (Memᴰ-perm (Permᴰ.symm p) (rw e m)), Distinct-perm p d.1)
Distinct-perm (Permᴰ.swap e f) d = swapped_Distinct e f d
Distinct-perm (Permᴰ.trans p q) d = Distinct-perm q (Distinct-perm p d)

SameFields-keys : {fs gs : Fields} → SameFields fs gs → Permᴰ (field_keys fs) (field_keys gs)
SameFields-keys empty = Permᴰ.nil
SameFields-keys (next k x h) = Permᴰ.cons refl (SameFields-keys h)
SameFields-keys (swapped j k x y fs) = Permᴰ.swap refl refl
SameFields-keys (after h k) = Permᴰ.trans (SameFields-keys h) (SameFields-keys k)

module _ (j : JsonText) where
  keys-marshal : (fs : Fields) → keys (marshal_fields j fs) ≡ field_keys fs
  unfolding marshal_fields
  keys-marshal no_fields = refl
  keys-marshal (field k x fs) = ap (λ l. k ∷ l) (keys-marshal fs)

  lookup-swapped :
      (a b : Str) (s t : Str) (m : Dict Str Str) (k : Str)
      → ¬ (a ≡ b)
      → lookup k ((a, s) ∷ (b, t) ∷ m) ≡ lookup k ((b, t) ∷ (a, s) ∷ m)
  unfolding lookup
  lookup-swapped a b s t m k ne = ground (arith, str_eq_iff a k, str_eq_iff b k)

  members-same :
      (m n : Dict Str Str) (l : List Str)
      → ((k : Str) → lookup k m ≡ lookup k n)
      → map (member_text j m) l ≡ map (member_text j n) l
  members-same m n [] h = refl
  members-same m n (k ∷ l) h = rw (members-same m n l h, h k, member_text, lookup_or) refl

  -- Two tables with the same keys and the same lookups give the same object.
  object_text-same :
      (m n : Dict Str Str)
      → Permᴰ (keys m) (keys n)
      → ((k : Str) → lookup k m ≡ lookup k n)
      → object_text j m ≡ object_text j n
  unfolding object_text
  object_text-same m n p h =
      rw (sort_by_order str_lt str_lt_irrefl str_lt_trans str_lt_total p)
        (ap (λ l. b'{' ∷ join (b',' ∷ []) l ++ b'}' ∷ []) (members-same m n _ h))

  abbrev SameLookups : Fields → Fields → Type 0
  SameLookups fs gs =
      Distinct (field_keys fs)
      → (k : Str) → lookup k (marshal_fields j fs) ≡ lookup k (marshal_fields j gs)

  SameLookups-objects :
      (fs gs : Fields)
      → SameFields fs gs
      → Distinct (field_keys fs)
      → SameLookups fs gs
      → object_text j (marshal_fields j fs) ≡ object_text j (marshal_fields j gs)
  SameLookups-objects fs gs h d found =
      object_text-same (marshal_fields j fs) (marshal_fields j gs)
        (rw (keys-marshal fs, keys-marshal gs) (SameFields-keys h)) (found d)

  -- The canonical JSON of a request does not depend on the order in which the fields of its objects
  -- come, at any depth, where no object has a key twice: so that a struct and a map, in whatever order
  -- it is ranged over, are the same request.
  pub marshal_canonical_order :
      {x y : Json} → SameJson x y → marshal_canonical j x ≡ marshal_canonical j y
  unfolding marshal_canonical marshal_items marshal_fields lookup
  marshal_canonical_order h =
      elim h
        as (λ x y _. marshal_canonical j x ≡ marshal_canonical j y) (λ xs ys _.
          marshal_items j xs ≡ marshal_items j ys) (λ fs gs _. SameLookups fs gs) [
            | same x ↦ refl
            | arrays (h → ih) ↦ ap (λ l. b'[' ∷ join (b',' ∷ []) l ++ b']' ∷ []) ih
            | objects {fs} {gs} d (h → ih) ↦ SameLookups-objects fs gs h d ih
            | done ↦ refl
            | more (h → ih) (k → ik) ↦ rw (ih, ik) refl
            | empty ↦ λ d k. refl
            | next k (h → ih) (hs → ihs) ↦ λ d i. rw (ih, ihs d.1 i) refl
            | swapped a b x y fs ↦ λ d i.
                lookup-swapped a b (marshal_canonical j x) (marshal_canonical j y)
                  (marshal_fields j fs) i (λ e. d.0 (Memᴰ.head e))
            | after (h → ih) (k → ik) ↦ λ d i. ih d i ∙ ik (Distinct-perm (SameFields-keys h) d) i
          ]

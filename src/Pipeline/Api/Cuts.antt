-- ===== src/Pipeline/Api/Cuts.antt =====
-- Texts that can be read back one after the other, as the members of a JSON object are.
use mathlib.Core.List.{append_assoc}
use smart_money_falsifier.Base.{
  ◌≡◌, refl, ap, sym, ◌∙◌, List, [], ◌∷◌, ◌++◌, map, All, ◌<◌, Str, join, arith,
}
use smart_money_falsifier.Nansen.Cache.{JsonText}

-- Where two texts begin, what follows them is the same only if they are.
abbrev pub Cuts : Str → Str → Type 0
Cuts x y = (u v : Str) → x ++ u ≡ y ++ v → (x ≡ y) × (u ≡ v)

-- A text of ASCII, as addresses and the names of chains are.
abbrev pub IsAscii : Str → Type 0
IsAscii s = All (λ c. c < 128) s

-- The JSON string of a text of ASCII ends at its closing quote, and says what is in it. A text that is not
-- UTF-8 does not come through encoding/json.
abbrev pub Delimits : JsonText → Type 0
Delimits j =
    (s t u v : Str) → IsAscii s → IsAscii t → j.quote s ++ u ≡ j.quote t ++ v → (s ≡ t) × (u ≡ v)

append-injective : (s u v : Str) → s ++ u ≡ s ++ v → u ≡ v
append-injective [] u v e = e
append-injective (c ∷ s) u v e = append-injective s u v (ground (arith, e))

pub Cuts-same : (s : Str) → Cuts s s
Cuts-same s u v e = (refl, append-injective s u v e)

module _ (j : JsonText) (delimits : Delimits j) where
  pub Cuts-quote : (s t : Str) → IsAscii s → IsAscii t → Cuts (j.quote s) (j.quote t)
  Cuts-quote s t p q u v e = let (same, rest) = delimits s t u v p q e in (ap j.quote same, rest)

  pub quote-injective : (s t : Str) → IsAscii s → IsAscii t → j.quote s ≡ j.quote t → s ≡ t
  quote-injective s t p q e = (delimits s t [] [] p q (ap (λ x. x ++ []) e)).0

-- A member of an object.
abbrev pub member : JsonText → Str × Str → Str
member j (k, x) = j.quote k ++ b':' ∷ x

-- The same keys, and values that cut.
abbrev pub AllCut : List (Str × Str) → List (Str × Str) → Type 0
AllCut [] [] = Unit
AllCut ((k, x) ∷ rs) ((l, y) ∷ ss) = (k ≡ l) × Cuts x y × AllCut rs ss
AllCut _ _ = ⊥

abbrev pub values_of : List (Str × Str) → List Str
values_of rows = map (λ kv. kv.1) rows

module _ (j : JsonText) where
  -- The value of a member, at two names of one key.
  cut :
      (k l x y u v : Str)
      → k ≡ l
      → Cuts x y
      → member j (k, x) ++ u ≡ member j (l, y) ++ v
      → (x ≡ y) × (u ≡ v)
  cut k l x y u v same h e =
      let e' : member j (k, x) ++ u ≡ member j (k, y) ++ v =
        e ∙ sym (ap (λ (z : Str). member j (z, y) ++ v) same) in
      let whole = append-injective (j.quote k) _ _ (
        sym (append_assoc (j.quote k) (b':' ∷ x) u) ∙ e' ∙ append_assoc (j.quote k) (b':' ∷ y) v) in
      h u v (ground (arith, whole))

  -- An object's text says what the values of its members are.
  pub join-cut :
      (rs ss : List (Str × Str)) (u v : Str)
      → AllCut rs ss
      → join (b',' ∷ []) (map (member j) rs) ++ u ≡ join (b',' ∷ []) (map (member j) ss) ++ v
      → values_of rs ≡ values_of ss
  unfolding join
  join-cut [] [] u v h e = refl
  join-cut [] (s ∷ ss) u v h e = absurd h
  join-cut (r ∷ rs) [] u v h e = absurd h
  join-cut ((k, x) ∷ []) ((l, y) ∷ []) u v (same, cuts, _) e =
      let (m, _) = cut k l x y u v same cuts e in ap (λ z. z ∷ []) m
  join-cut (r ∷ []) (s ∷ s' ∷ ss) u v h e = absurd h.2
  join-cut (r ∷ r' ∷ rs) (s ∷ []) u v h e = absurd h.2
  join-cut ((k, x) ∷ r ∷ rs) ((l, y) ∷ s ∷ ss) u v (same, cuts, more) e =
      let tail = join (b',' ∷ []) (map (member j) (r ∷ rs)) in
      let tail' = join (b',' ∷ []) (map (member j) (s ∷ ss)) in
      let (m, rest) = cut k l x y (b',' ∷ tail ++ u) (b',' ∷ tail' ++ v) same cuts (
        sym (append_assoc (member j (k, x)) (b',' ∷ tail) u)
        ∙ e
        ∙ append_assoc (member j (l, y)) (b',' ∷ tail') v) in
      rw (m, join-cut (r ∷ rs) (s ∷ ss) u v more (ground (arith, rest))) refl

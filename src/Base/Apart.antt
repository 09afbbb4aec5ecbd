-- ===== src/Base/Apart.antt =====
-- Different texts of a list, by a test.
use mathlib.Core.Path.{◌≡◌}
use mathlib.Core.Bool.{Bool, true, not, ◌&&◌}
use mathlib.Core.List.{List, [], ◌∷◌, Memᴰ}
use native.Mathlib.Omega.{arith}
use smart_money_falsifier.Base.Lists.{any, Distinct}
use smart_money_falsifier.Base.Text.{Str, str_eq, str_eq_iff}

abbrev pub all_apart : List Str → Bool
all_apart [] = true
all_apart (x ∷ xs) = not (any (str_eq x) xs) && all_apart xs

mem-any : (x : Str) (xs : List Str) → Memᴰ x xs → any (str_eq x) xs ≡ true
mem-any x [] m = elim m [ ]
mem-any x (y ∷ ys) (Memᴰ.head e) = ground (arith, (str_eq_iff x y).1 e)
mem-any x (y ∷ ys) (Memᴰ.tail m) = ground (arith, mem-any x ys m)

pub all_apart-Distinct : (xs : List Str) → all_apart xs ≡ true → Distinct xs
all_apart-Distinct [] h = tt
all_apart-Distinct (x ∷ xs) h =
    (λ m. absurd (ground (arith, mem-any x xs m, h)), all_apart-Distinct xs (ground (arith, h)))

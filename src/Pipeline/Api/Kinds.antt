-- ===== src/Pipeline/Api/Kinds.antt =====
-- internal/pipeline: the requests by kind and arguments, and the path of each kind.
use smart_money_falsifier.Base.{
  ℕ, zero, suc, ◌≡◌, refl, Bool, true, not, ◌&&◌, [], ◌∷◌, ◌++◌, if◌then◌else◌, ◌==◌, Str, str,
  str_eq, arith,
}
use smart_money_falsifier.Pipeline.Api.{Request, seed, pnl, related, flow, info, ohlcv, path_of}

-- The number of a kind of request, its arguments, and the request that they make.
pub kind : Request → ℕ
kind seed = 0
kind (pnl a) = 1
kind (related a b) = 2
kind (flow a b) = 3
kind (info a b) = 4
kind (ohlcv a b) = 5

unfoldable pub first : Request → Str
first seed = []
first (pnl a) = a
first (related a b) = a
first (flow a b) = a
first (info a b) = a
first (ohlcv a b) = a

unfoldable pub second : Request → Str
second seed = []
second (pnl a) = []
second (related a b) = b
second (flow a b) = b
second (info a b) = b
second (ohlcv a b) = b

unfoldable pub build : ℕ → Str → Str → Request
build zero a b = seed
build (suc zero) a b = pnl a
build (suc (suc zero)) a b = related a b
build (suc (suc (suc zero))) a b = flow a b
build (suc (suc (suc (suc zero)))) a b = info a b
build (suc (suc (suc (suc (suc k))))) a b = ohlcv a b

pub build-parts : (r : Request) → build (kind r) (first r) (second r) ≡ r
unfolding build kind first second
build-parts seed = refl
build-parts (pnl a) = refl
build-parts (related a b) = refl
build-parts (flow a b) = refl
build-parts (info a b) = refl
build-parts (ohlcv a b) = refl

-- The kind that a path stands for.
pub kind_of_path : Str → ℕ
unfolding path_of
kind_of_path p =
    if str_eq p (path_of seed)
    then 0
    else if str_eq p (path_of (pnl []))
    then 1
    else if str_eq p (path_of (related [] []))
    then 2
    else if str_eq p (path_of (flow [] []))
    then 3
    else if str_eq p (path_of (info [] []))
    then 4
    else 5

pub kind-path : (r : Request) → kind_of_path (path_of r) ≡ kind r
unfolding kind_of_path kind path_of str str_eq
kind-path seed = refl
kind-path (pnl a) = refl
kind-path (related a b) = refl
kind-path (flow a b) = refl
kind-path (info a b) = refl
kind-path (ohlcv a b) = refl

abbrev pub braceless : Str → Bool
braceless [] = true
braceless (c ∷ s) = not (c == b'{') && braceless s

pub path-braceless : (r : Request) → braceless (path_of r) ≡ true
unfolding path_of str
path-braceless seed = refl
path-braceless (pnl a) = refl
path-braceless (related a b) = refl
path-braceless (flow a b) = refl
path-braceless (info a b) = refl
path-braceless (ohlcv a b) = refl

-- A path ends where the body begins.
pub cut_path :
    (s t u v : Str)
    → braceless s ≡ true
    → braceless t ≡ true
    → s ++ b'{' ∷ u ≡ t ++ b'{' ∷ v
    → (s ≡ t) × (u ≡ v)
cut_path [] [] u v hs ht e = (refl, ground (arith, e))
cut_path [] (c ∷ t) u v hs ht e = absurd (ground (arith, e, ht))
cut_path (c ∷ s) [] u v hs ht e = absurd (ground (arith, e, hs))
cut_path (c ∷ s) (d ∷ t) u v hs ht e = ground (arith, cut_path s t u v, hs, ht, e)

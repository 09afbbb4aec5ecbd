-- ===== src/Nansen/Cache/Disk.antt =====
-- internal/nansen/cache.go: the files against the map that they stand for.
use smart_money_falsifier.Base.{
  ℕ, ◌≡◌, ◌≢◌, refl, ap, ◌∙◌, some, [], ◌∷◌, ◌++◌, if◌then◌else◌, arith, Str, str, str_eq,
  str_eq_iff, str_key, Dict, lookup, insert, lookup-insert, length, length-append,
}
use smart_money_falsifier.Nansen.Cache.{
  contents, Files, path_for, get, remove, put, PutFate, mkdir_fails, write_fails, rename_fails,
  succeeds,
}

-- Every key has in the files what it has in the map.
abbrev pub Stores : Str → Files → Dict Str Str → Type 0
Stores dir files m = (key : Str) → get dir files key ≡ lookup key m

last : ℕ → Str → ℕ
last d [] = d
last d (c ∷ s) = last c s

last-append : (d c : ℕ) (s t : Str) → last d (s ++ c ∷ t) ≡ last c t
unfolding last
last-append d c [] t = refl
last-append d c (a ∷ s) t = last-append a c s t

last-json : (dir key : Str) → last 0 (path_for dir key) ≡ b'n'
unfolding path_for last str
last-json dir key = last-append 0 b'/' dir (key ++ str ".json") ∙ last-append b'/' b'.' key _

last-tmp : (dir key : Str) → last 0 (path_for dir key ++ str ".tmp") ≡ b'p'
unfolding last str
last-tmp dir key = last-append 0 b'.' (path_for dir key) _

-- A temporary file is no key's file.
tmp-ne-path : (dir j k : Str) → path_for dir j ++ str ".tmp" ≢ path_for dir k
tmp-ne-path dir j k e = absurd (ground (arith, last-tmp dir j, last-json dir k, ap (last 0) e))

append-injective : (s t u : Str) → s ++ t ≡ s ++ u → t ≡ u
append-injective [] t u e = e
append-injective (c ∷ s) t u e = append-injective s t u (ground (arith, e))

append-cancel : (s t u : Str) → s ++ u ≡ t ++ u → s ≡ t
append-cancel [] [] u e = refl
append-cancel [] (c ∷ t) u e = absurd (omega (arith, ap length e, length-append t u))
append-cancel (c ∷ s) [] u e = absurd (omega (arith, ap length e, length-append s u))
append-cancel (a ∷ s) (b ∷ t) u e = ground (arith, append-cancel s t u, e)

path_for-injective : (dir j k : Str) → path_for dir j ≡ path_for dir k → j ≡ k
unfolding path_for
path_for-injective dir j k e =
    append-cancel j k (str ".json") (ground (arith, append-injective dir _ _ e))

lookup-remove : (k j : Str) (m : Files) → k ≢ j → lookup j (remove k m) ≡ lookup j m
unfolding lookup remove
lookup-remove k j [] ne = refl
lookup-remove k j ((i, v) ∷ m) ne =
    ground (arith, str_eq_iff i k, str_eq_iff i j, lookup-remove k j m ne)

get-tmp :
    (dir key j body : Str) (files : Files)
    → get dir (insert (path_for dir key ++ str ".tmp") (contents body) files) j ≡ get dir files j
unfolding get
get-tmp dir key j body files = ground (
  arith,
  lookup-insert (path_for dir key ++ str ".tmp") (path_for dir j) (contents body) files,
  str_eq_iff (path_for dir key ++ str ".tmp") (path_for dir j),
  tmp-ne-path dir key j,
)

get-renamed :
    (dir key j body : Str) (files : Files)
    → get dir (put dir succeeds key body files).0 j
      ≡ (if str_eq key j then some body else get dir files j)
unfolding get put
get-renamed dir key j body files =
    let tmp = path_for dir key ++ str ".tmp" in
    ground (
      arith,
      lookup-insert (path_for dir key) (path_for dir j) (contents body)
          (remove tmp (insert tmp (contents body) files)),
      lookup-remove tmp (path_for dir j) (insert tmp (contents body) files) (tmp-ne-path dir key j),
      lookup-insert tmp (path_for dir j) (contents body) files,
      str_eq_iff tmp (path_for dir j),
      tmp-ne-path dir key j,
      str_eq_iff (path_for dir key) (path_for dir j),
      str_eq_iff key j,
      path_for-injective dir key j,
      λ (e : key ≡ j). ap (path_for dir) e,
    )

-- Whatever becomes of a Put, the files go on to stand for a map of the cache: the map with the new
-- entry where Put returns nil, and the same map where it fails, at whichever of its steps and with
-- whatever part of the body written.
pub put-Stores :
    (dir : Str) (fate : PutFate) (key body : Str) (files : Files) (m : Dict Str Str)
    → Stores dir files m
    → Stores dir
        (put dir fate key body files).0
        (if (put dir fate key body files).1 then insert key body m else m)
unfolding put
put-Stores dir mkdir_fails key body files m h j = h j
put-Stores dir (write_fails part) key body files m h j = get-tmp dir key j part files ∙ h j
put-Stores dir rename_fails key body files m h j = get-tmp dir key j body files ∙ h j
put-Stores dir succeeds key body files m h j =
    ground (arith, get-renamed dir key j body files, lookup-insert key j body m, h j)

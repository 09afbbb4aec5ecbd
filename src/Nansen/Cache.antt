-- ===== src/Nansen/Cache.antt =====
-- internal/nansen/cache.go: the canonical JSON of a request, the key that is made of it, and the files
-- behind the cache. What encoding/json writes for a string and a number, and sha256 in hex, are
-- parameters; it writes a scalar without an error.
pub mod Canonical
pub mod Disk
use smart_money_falsifier.Base.{
  ℕ, Bool, true, false, not, Option, none, some, List, [], ◌∷◌, ◌++◌, map, if◌then◌else◌, select,
  keys, Str, str, str_eq, str_lt, str_key, join, Dict, lookup, lookup_or, insert, sort_by,
}

-- `any`, as Unmarshal fills it. The fields of an object come in the order in which the map is ranged
-- over.
mutual
  pub data Json : Type 0 where
    null : Json
    bool : Bool → Json
    number : ℕ → Json
    text : Str → Json
    array : Items → Json
    object : Fields → Json

  pub data Items : Type 0 where
    no_items : Items
    item : Json → Items → Items

  pub data Fields : Type 0 where
    no_fields : Fields
    field : Str → Json → Fields → Fields

-- `json.Marshal` of a number and of a string.
pub record JsonText : Type 0 where
  pub of_number : ℕ → Str
  pub quote : Str → Str

abbrev pub member_text : JsonText → Dict Str Str → Str → Str
member_text j values k = j.quote k ++ b':' ∷ lookup_or k [] values

-- An object from the canonical texts of its values: the keys sorted, and each value looked up.
unfoldable pub object_text : JsonText → Dict Str Str → Str
unfolding join
object_text j values =
    b'{' ∷ join (b',' ∷ []) (map (member_text j values) (sort_by str_lt (keys values))) ++ b'}' ∷ []

module _ (j : JsonText) where
  unfoldable mutual
    pub marshal_canonical : Json → Str
    marshal_canonical null = str "null"
    marshal_canonical (bool true) = str "true"
    marshal_canonical (bool false) = str "false"
    marshal_canonical (number n) = j.of_number n
    marshal_canonical (text s) = j.quote s
    marshal_canonical (array xs) = b'[' ∷ join (b',' ∷ []) (marshal_items xs) ++ b']' ∷ []
    marshal_canonical (object fs) = object_text j (marshal_fields fs)

    pub marshal_items : Items → List Str
    marshal_items no_items = []
    marshal_items (item x xs) = marshal_canonical x ∷ marshal_items xs

    pub marshal_fields : Fields → Dict Str Str
    marshal_fields no_fields = []
    marshal_fields (field k x fs) = (k, marshal_canonical x) ∷ marshal_fields fs

-- Key. `sha` is the hex form of the SHA-256 sum.
unfoldable pub cache_key : JsonText → (Str → Str) → Str → Json → Str
unfolding marshal_canonical
cache_key j sha path body = sha (path ++ marshal_canonical j body)

-- A file that os.Stat finds: os.ReadFile reads it, or fails.
pub data File : Type 0 where
  contents : Str → File
  unreadable : File

-- The files, by their paths.
abbrev pub Files : Type 0
Files = Dict Str File

unfoldable pub path_for : Str → Str → Str
path_for dir key = dir ++ (b'/' ∷ key ++ str ".json")

unfoldable pub get : Str → Files → Str → Option Str
unfolding path_for
get dir files key = elim (lookup (path_for dir key) files) [
  | none ↦ none
  | some file ↦ elim file [ contents body ↦ some body | unreadable ↦ none ]
]

unfoldable pub exists : Str → Files → Str → Bool
unfolding path_for
exists dir files key = elim (lookup (path_for dir key) files) [ none ↦ false | some file ↦ true ]

unfoldable pub remove : Str → Files → Files
remove path files = select (λ kv. not (str_eq kv.0 path)) files

-- How the three steps of a Put end. A write that fails leaves a part of the body behind.
pub data PutFate : Type 0 where
  mkdir_fails : PutFate
  write_fails : Str → PutFate
  rename_fails : PutFate
  succeeds : PutFate

-- Put: the files after it, and whether it returns nil.
unfoldable pub put : Str → PutFate → Str → Str → Files → Files × Bool
unfolding path_for remove
put dir mkdir_fails key body files = (files, false)
put dir (write_fails part) key body files =
    (insert (path_for dir key ++ str ".tmp") (contents part) files, false)
put dir rename_fails key body files =
    (insert (path_for dir key ++ str ".tmp") (contents body) files, false)
put dir succeeds key body files =
    let tmp = path_for dir key ++ str ".tmp" in
    (
      insert (path_for dir key) (contents body) (remove tmp (insert tmp (contents body) files)),
      true,
    )

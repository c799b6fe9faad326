-- ===== src/Golang/PackageCache.antt =====
-- PackageCache of lang/golang/parser/utils.go: which import paths are packages of the system. The
-- list holds the entries, the last used one first. The map from a key to its element always has the
-- keys of the list, since both are written together and nothing else holds an element, so a lookup
-- in the map is a search of the list. One call runs at a time, under the lock.
use abcoder.Base.{
  ℕ, ◌-◌, Bool-cases, ◌≤◌, ◌<◌, ◌≡◌, refl, Bool, List, [], ◌∷◌, Option, none, some, arith, leb,
  length, if◌then◌else◌, Option-cases, inl, inr,
}
use abcoder.Base.Text.{Text, text_eq, text_eq_iff, text_eq_refl, All}
use abcoder.Base.GoMap.{find}

pub record PackageCache : Type 0 where
  pub lru : List (Text × Bool)
  pub lru_capacity : ℕ

abbrev pub new_package_cache : ℕ → PackageCache
new_package_cache n = record { lru = []; lru_capacity = n }

-- The list without the entry of a key.
unfoldable pub remove_key : Text → List (Text × Bool) → List (Text × Bool)
remove_key key [] = []
remove_key key (e ∷ es) = let rest = remove_key key es in if text_eq e.0 key then rest else e ∷ rest

-- The list without its back.
unfoldable pub remove_back : List (Text × Bool) → List (Text × Bool)
remove_back [] = []
remove_back (e ∷ []) = []
remove_back (e ∷ f ∷ es) = e ∷ remove_back (f ∷ es)

unfoldable pub cache_get : PackageCache → Text → PackageCache × Option Bool
unfolding remove_key
cache_get pc key = elim (find key pc.lru) [
  | some v ↦ (record pc { lru = (key, v) ∷ remove_key key pc.lru }, some v)
  | none ↦ (pc, none)
]

-- The room for one more entry.
unfoldable pub make_room : PackageCache → List (Text × Bool)
unfolding remove_back
make_room pc = if leb pc.lru_capacity (length pc.lru) then remove_back pc.lru else pc.lru

unfoldable pub cache_set : PackageCache → Text → Bool → PackageCache
unfolding remove_key make_room
cache_set pc key value = elim (find key pc.lru) [
  | some v ↦ record pc { lru = (key, value) ∷ remove_key key pc.lru }
  | none ↦ record pc { lru = (key, value) ∷ make_room pc }
]

length-remove_key : (k : Text) (es : List (Text × Bool)) → length (remove_key k es) ≤ length es
unfolding remove_key
length-remove_key k [] = omega arith
length-remove_key k (e ∷ es) = ground (arith, length-remove_key k es)

length-remove_key_found :
    (k : Text) (es : List (Text × Bool)) (v : Bool)
    → find k es ≡ some v
    → length (remove_key k es) < length es
unfolding remove_key find
length-remove_key_found k [] v h = cc
length-remove_key_found k (e ∷ es) v h =
    ground (arith, length-remove_key k es, length-remove_key_found k es v)

length-remove_back : (es : List (Text × Bool)) → length (remove_back es) ≡ length es - 1
unfolding remove_back
length-remove_back [] = refl
length-remove_back (e ∷ []) = refl
length-remove_back (e ∷ f ∷ es) = ground (arith, length-remove_back (f ∷ es))

-- A cache with a capacity of at least 1 and no more entries than that has no more after set, and
-- get then finds the value that was set.
pub cache_get-cache_set :
    (pc : PackageCache) (key : Text) (value : Bool)
    → 1 ≤ pc.lru_capacity
    → length pc.lru ≤ pc.lru_capacity
    → (length (cache_set pc key value).lru ≤ pc.lru_capacity)
      × ((cache_get (cache_set pc key value) key).1 ≡ some value)
unfolding cache_get cache_set make_room find
cache_get-cache_set pc key value h k = elim (Option-cases (find key pc.lru)) [
  | inl absent ↦ (ground (arith, length-remove_back pc.lru), ground (arith, text_eq_refl key))
  | inr (v, found) ↦
      (ground (arith, length-remove_key_found key pc.lru v found), ground (arith, text_eq_refl key))
]

-- What the operating system says of a path: whether it is a package of the standard library.
module _ (is_standard_library : Text → Bool) where
  unfoldable pub is_standard_package : PackageCache → Text → PackageCache × Bool
  unfolding cache_get cache_set
  is_standard_package pc path = elim (cache_get pc path).1 [
    | some is_std ↦ ((cache_get pc path).0, is_std)
    | none ↦
        (cache_set (cache_get pc path).0 path (is_standard_library path), is_standard_library path)
  ]

  -- every entry holds what the operating system says
  abbrev pub IsRight : List (Text × Bool) → Type 0
  IsRight = All (λ e. e.1 ≡ is_standard_library e.0)

  find-IsRight :
      (k : Text) (es : List (Text × Bool)) (v : Bool)
      → IsRight es
      → find k es ≡ some v
      → v ≡ is_standard_library k
  unfolding find
  find-IsRight k [] v right h = cc
  find-IsRight k (e ∷ es) v (r, right) h =
      ground (arith, find-IsRight k es v right, text_eq_iff e.0 k)

  remove_key-IsRight : (k : Text) (es : List (Text × Bool)) → IsRight es → IsRight (remove_key k es)
  unfolding remove_key
  remove_key-IsRight k [] right = tt
  remove_key-IsRight k (e ∷ es) (r, right) = elim (Bool-cases (text_eq e.0 k)) [
    | inl is ↦ rw is (remove_key-IsRight k es right)
    | inr other ↦ rw other (r, remove_key-IsRight k es right)
  ]

  remove_back-IsRight : (es : List (Text × Bool)) → IsRight es → IsRight (remove_back es)
  unfolding remove_back
  remove_back-IsRight [] right = tt
  remove_back-IsRight (e ∷ []) right = tt
  remove_back-IsRight (e ∷ f ∷ es) (r, right) = (r, remove_back-IsRight (f ∷ es) right)

  make_room-IsRight : (pc : PackageCache) → IsRight pc.lru → IsRight (make_room pc)
  unfolding make_room
  make_room-IsRight pc right = elim (Bool-cases (leb pc.lru_capacity (length pc.lru))) [
    | inl full ↦ rw full (remove_back-IsRight pc.lru right)
    | inr room ↦ rw room right
  ]

  -- With a cache whose entries are right, IsStandardPackage answers what the operating system says,
  -- and leaves a cache whose entries are right.
  pub is_standard_package-IsRight :
      (pc : PackageCache) (path : Text)
      → IsRight pc.lru
      → ((is_standard_package pc path).1 ≡ is_standard_library path)
        × IsRight (is_standard_package pc path).0.lru
  unfolding is_standard_package cache_get cache_set
  is_standard_package-IsRight pc path right = elim (Option-cases (find path pc.lru)) [
    | inl absent ↦
        let kept : (is_standard_package pc path).0.lru
            ≡ (path, is_standard_library path) ∷ make_room pc =
          ground arith in
        (ground arith, rw kept (refl, make_room-IsRight pc right))
    | inr (v, found) ↦
        let v_right = find-IsRight path pc.lru v right found in
        let kept : (is_standard_package pc path).0.lru ≡ (path, v) ∷ remove_key path pc.lru =
          ground arith in
        (ground (arith, v_right), rw kept (v_right, remove_key-IsRight path pc.lru right))
  ]

-- ===== src/Uniast/Repository/Entities.antt =====
-- What is found in a repository after an entity was stored in it.
use abcoder.Base.{◌≡◌, Bool, ◌&&◌, [], Option, some, arith, if◌then◌else◌}
use abcoder.Base.Text.{Text, text_eq, text_eq_iff}
use abcoder.Base.Result.{Result, ok, deref, bind_ok}
use abcoder.Base.GoMap.{GoMap, made, get, put, put_absent, and_then, or_else, get-put, get-made_nil}
use abcoder.Uniast.Identity.{Identity, id_eq}
use abcoder.Uniast.Model.{Package, Repository}
use abcoder.Uniast.Zero.{new_package}
use abcoder.Uniast.Repository.{get_package, edit_package}

-- `m[k] = v` behind `if m[k] == nil`: the first write wins.
pub get-put_absent {ℓ} :
    {V : Type ℓ} (m : GoMap V) (k j : Text) (v : V) {m' : GoMap V}
    → put_absent m k v ≡ ok m'
    → get m' j ≡ (if text_eq k j then some (or_else (get m k) v) else get m j)
unfolding put_absent
get-put_absent m k j v {m'} h = ground (arith, get-put m k j v {m' = m'}, text_eq_iff k j)

-- where the entities of an identity live
abbrev pub same_place : Identity → Text → Text → Bool
same_place id m p = text_eq id.mod_path m && text_eq id.pkg_path p

abbrev pub old_package : Repository → Identity → Package
old_package r id = or_else (get_package r id.mod_path id.pkg_path) (new_package id.pkg_path)

-- After an edit the package is the edited one, and every other package is what it was.
pub get_package-edit_package :
    (r : Repository) (id : Identity) (edit : Package → Result Package) {r' : Repository}
    → edit_package r id edit ≡ ok r'
    → (pp : Package) × (edit (old_package r id) ≡ ok pp)
      × (r'.graph ≡ r.graph)
      × ((m p : Text)
          → get_package r' m p ≡ (
              if text_eq id.mod_path m && text_eq id.pkg_path p
              then some pp
              else get_package r m p))
unfolding edit_package get_package
get_package-edit_package r id edit h = bind_ok (deref (get r.modules id.mod_path)) _ h λ lib e1 h1.
    bind_ok (edit (or_else (get lib.packages id.pkg_path) (new_package id.pkg_path))) _ h1
      λ pp e2 h2. bind_ok (put lib.packages id.pkg_path pp) _ h2 λ pkgs e3 h3.
        bind_ok (put r.modules id.mod_path (record lib { packages = pkgs })) _ h3 λ mods e4 h4. (
          pp,
          ground arith,
          ground arith,
          λ m p. ground (
            arith,
            get-put r.modules id.mod_path m (record lib { packages = pkgs }) e4,
            get-put lib.packages id.pkg_path p pp e3,
            text_eq_iff id.mod_path m,
            text_eq_iff id.pkg_path p,
          ),
        )

-- the entities of one sort in the package of an identity
abbrev pub lookup_in {ℓ} : {V : Type ℓ} → (Package → GoMap V) → Repository → Identity → Option V
lookup_in sort r j = and_then (get_package r j.mod_path j.pkg_path) (λ pkg. get (sort pkg) j.name)

module _ {ℓ} {V : Type ℓ} (sort : Package → GoMap V) (r r' : Repository) (id : Identity)
    (pp : Package)
    (law : (m p : Text)
      → get_package r' m p
        ≡ (if text_eq id.mod_path m && text_eq id.pkg_path p then some pp else get_package r m p))
    (fresh : sort (new_package id.pkg_path) ≡ made []) where
  -- an edit that writes the entity under the name of the identity
  pub lookup_in_written :
      (v : V)
      → ((k : Text)
          → get (sort pp) k
            ≡ (if text_eq id.name k then some v else get (sort (old_package r id)) k))
      → (j : Identity) → lookup_in sort r' j ≡ (if id_eq id j then some v else lookup_in sort r j)
  unfolding id_eq
  lookup_in_written v written j = ground (
    arith,
    law j.mod_path j.pkg_path,
    written j.name,
    fresh,
    get-made_nil {V = V} j.name,
    text_eq_iff id.mod_path j.mod_path,
    text_eq_iff id.pkg_path j.pkg_path,
    text_eq_iff id.name j.name,
  )

  -- an edit that leaves the sort alone
  pub lookup_in_kept :
      sort pp ≡ sort (old_package r id) → (j : Identity) → lookup_in sort r' j ≡ lookup_in sort r j
  lookup_in_kept kept j = ground (
    arith,
    law j.mod_path j.pkg_path,
    fresh,
    get-made_nil {V = V} j.name,
    text_eq_iff id.mod_path j.mod_path,
    text_eq_iff id.pkg_path j.pkg_path,
  )

-- what the old package has under the name of the identity
pub lookup_in_old {ℓ} :
    {V : Type ℓ} (sort : Package → GoMap V) (r : Repository) (id : Identity)
    → sort (new_package id.pkg_path) ≡ made []
    → get (sort (old_package r id)) id.name ≡ lookup_in sort r id
lookup_in_old {V} sort r id fresh = ground (arith, fresh, get-made_nil {V = V} id.name)

-- ===== src/Uniast/Repository/Total.antt =====
-- When SetFunction, SetType and SetVar succeed.
use abcoder.Base.{◌≡◌, refl, true, Option, none, some, arith, if◌then◌else◌}
use abcoder.Base.Text.{Text, codes, text_eq}
use abcoder.Base.Result.{Result, ok}
use abcoder.Base.GoMap.{
  GoMap, nil_map, made, entries, assign, get, put, put_absent, or_else, get-nil, IsMade,
}
use abcoder.Uniast.Identity.{Identity}
use abcoder.Uniast.Model.{Function, TypeDecl, Var, Package, Module, Repository}
use abcoder.Uniast.Zero.{new_package}
use abcoder.Uniast.Repository.{
  get_module, get_package, get_function, get_type, get_var, edit_package, store_function,
  set_function, store_type, set_type, store_var, set_var,
}
use abcoder.Uniast.Repository.Entities.{old_package}

-- No map of a module or of a package is nil.
pub record IsReady (r : Repository) : Type 0 where
  pub packages_made : (m : Text) (lib : Module) → get_module r m ≡ some lib → IsMade lib.packages
  pub maps_made :
      (m p : Text) (pp : Package)
      → get_package r m p ≡ some pp
      → IsMade pp.functions × IsMade pp.types × IsMade pp.vars

pub put-IsMade {ℓ} :
    {V : Type ℓ} (m : GoMap V) (k : Text) (v : V)
    → IsMade m
    → put m k v ≡ ok (made (assign k v (entries m)))
unfolding put
put-IsMade nil_map k v h = absurd h
put-IsMade (made m) k v h = refl

pub put-get {ℓ} :
    {V : Type ℓ} (m : GoMap V) (k : Text) (v : V) {w : V}
    → get m k ≡ some w
    → put m k v ≡ ok (made (assign k v (entries m)))
unfolding put
put-get {V} nil_map k v h = absurd (cc (h, get-nil {V = V} k))
put-get (made m) k v h = refl

pub put_absent-IsMade {ℓ} :
    {V : Type ℓ} (m : GoMap V) (k : Text) (v : V)
    → IsMade m
    → (m' : GoMap V) × (put_absent m k v ≡ ok m')
unfolding put_absent
put_absent-IsMade m k v h = (
  elim (get m k) [ none ↦ made (assign k v (entries m)) | some w ↦ m ],
  ground (arith, put-IsMade m k v h),
)

-- An edit of a package of a module that is there succeeds.
pub edit_package-total :
    (r : Repository) (id : Identity) (edit : Package → Result Package) (lib : Module) (pp : Package)
    → IsReady r
    → get_module r id.mod_path ≡ some lib
    → edit (old_package r id) ≡ ok pp
    → (r' : Repository) × (edit_package r id edit ≡ ok r')
unfolding edit_package get_module get_package
edit_package-total r id edit lib pp ready found edited =
    let pkgs : GoMap Package = made (assign id.pkg_path pp (entries lib.packages)) in
    (
      record r {
        modules = made (assign id.mod_path (record lib { packages = pkgs }) (entries r.modules));
      },
      ground (
        arith,
        put-IsMade lib.packages id.pkg_path pp (ready.packages_made id.mod_path lib found),
        put-get r.modules id.mod_path (record lib { packages = pkgs }) found,
      ),
    )

-- the maps of the package that an edit starts from
old_package-IsMade :
    (r : Repository) (id : Identity)
    → IsReady r
    → IsMade (old_package r id).functions
      × IsMade (old_package r id).types
      × IsMade (old_package r id).vars
old_package-IsMade r id ready =
    from_cases (get_package r id.mod_path id.pkg_path) (ready.maps_made id.mod_path id.pkg_path)
  where
    from_cases :
        (o : Option Package)
        → ((pp : Package) → o ≡ some pp → IsMade pp.functions × IsMade pp.types × IsMade pp.vars)
        → IsMade (or_else o (new_package id.pkg_path)).functions
          × IsMade (or_else o (new_package id.pkg_path)).types
          × IsMade (or_else o (new_package id.pkg_path)).vars
    from_cases none h = (tt, tt, tt)
    from_cases (some pp) h = h pp refl

store_function-total :
    (n : Text) (x : Function) (pp : Package)
    → IsMade pp.functions
    → (pp' : Package) × (store_function n x pp ≡ ok pp')
unfolding store_function
store_function-total n x pp h =
    let (m, e) = put_absent-IsMade pp.functions n x h in
    (
      record pp { functions = m; is_main = if text_eq n (codes "main") then true else pp.is_main },
      rw e,
    )

store_type-total :
    (n : Text) (x : TypeDecl) (pp : Package)
    → IsMade pp.types
    → (pp' : Package) × (store_type n x pp ≡ ok pp')
unfolding store_type
store_type-total n x pp h =
    let (m, e) = put_absent-IsMade pp.types n x h in (record pp { types = m }, rw e)

store_var-total :
    (n : Text) (x : Var) (pp : Package)
    → IsMade pp.vars
    → (pp' : Package) × (store_var n x pp ≡ ok pp')
unfolding store_var
store_var-total n x pp h =
    let (m, e) = put_absent-IsMade pp.vars n x h in (record pp { vars = m }, rw e)

-- With the maps made, SetFunction, SetType and SetVar succeed if the identity's module is there.
pub set-total :
    (r : Repository) (id : Identity) (f : Function) (t : TypeDecl) (v : Var) (lib : Module)
    → IsReady r
    → get_module r id.mod_path ≡ some lib
    → ((out : Repository × Option Function) × (set_function r id f ≡ ok out))
      × ((out : Repository × Option TypeDecl) × (set_type r id t ≡ ok out))
      × ((out : Repository × Option Var) × (set_var r id v ≡ ok out))
unfolding set_function set_type set_var
set-total r id f t v lib ready found = (
  let (r', e) = stored (store_function id.name f) (store_function-total id.name f pp maps.0) in
      ((r', get_function r' id), rw e),
  let (r', e) = stored (store_type id.name t) (store_type-total id.name t pp maps.1) in
      ((r', get_type r' id), rw e),
  let (r', e) = stored (store_var id.name v) (store_var-total id.name v pp maps.2) in
      ((r', get_var r' id), rw e),
)
  where
    pp : Package
    pp = old_package r id

    maps : IsMade pp.functions × IsMade pp.types × IsMade pp.vars
    maps = old_package-IsMade r id ready

    stored :
        (edit : Package → Result Package)
        → ((pp' : Package) × (edit pp ≡ ok pp'))
        → (r' : Repository) × (edit_package r id edit ≡ ok r')
    stored edit (pp', e) = edit_package-total r id edit lib pp' ready found e

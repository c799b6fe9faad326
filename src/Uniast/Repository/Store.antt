-- ===== src/Uniast/Repository/Store.antt =====
-- SetFunction, SetType and SetVar: what is found afterwards, and when they panic.
use abcoder.Base.{◌≡◌, refl, Option, some, arith, if◌then◌else◌}
use abcoder.Base.Text.{Text, text_eq, text_eq_iff}
use abcoder.Base.Result.{ok, bind_ok}
use abcoder.Base.GoMap.{get, put_absent, or_else}
use abcoder.Uniast.Identity.{Identity, id_eq, id_eq_refl}
use abcoder.Uniast.Model.{Function, TypeDecl, Var, Package, Repository}
use abcoder.Uniast.Repository.{
  get_function, get_type, get_var, edit_package, store_function, set_function, store_type, set_type,
  store_var, set_var,
}
use abcoder.Uniast.Repository.Entities.{
  get-put_absent, get_package-edit_package, old_package, lookup_in, lookup_in_written,
  lookup_in_kept, lookup_in_old,
}

-- what a stored package holds
store_function_lem :
    (n : Text) (f : Function) (pp : Package) {pp' : Package}
    → store_function n f pp ≡ ok pp'
    → ((k : Text)
        → get pp'.functions k
          ≡ (if text_eq n k then some (or_else (get pp.functions n) f) else get pp.functions k))
      × (pp'.types ≡ pp.types)
      × (pp'.vars ≡ pp.vars)
unfolding store_function
store_function_lem n f pp {pp'} h = bind_ok (put_absent pp.functions n f) _ h λ fs e h'. (
  λ k. ground (arith, get-put_absent pp.functions n k f e, text_eq_iff n k),
  ground arith,
  ground arith,
)

store_type_lem :
    (n : Text) (t : TypeDecl) (pp : Package) {pp' : Package}
    → store_type n t pp ≡ ok pp'
    → ((k : Text)
        → get pp'.types k
          ≡ (if text_eq n k then some (or_else (get pp.types n) t) else get pp.types k))
      × (pp'.functions ≡ pp.functions)
      × (pp'.vars ≡ pp.vars)
unfolding store_type
store_type_lem n t pp {pp'} h = bind_ok (put_absent pp.types n t) _ h λ ts e h'. (
  λ k. ground (arith, get-put_absent pp.types n k t e, text_eq_iff n k),
  ground arith,
  ground arith,
)

store_var_lem :
    (n : Text) (v : Var) (pp : Package) {pp' : Package}
    → store_var n v pp ≡ ok pp'
    → ((k : Text)
        → get pp'.vars k
          ≡ (if text_eq n k then some (or_else (get pp.vars n) v) else get pp.vars k))
      × (pp'.functions ≡ pp.functions)
      × (pp'.types ≡ pp.types)
unfolding store_var
store_var_lem n v pp {pp'} h = bind_ok (put_absent pp.vars n v) _ h λ vs e h'. (
  λ k. ground (arith, get-put_absent pp.vars n k v e, text_eq_iff n k),
  ground arith,
  ground arith,
)

-- After SetFunction, the identity has the function that it had, or else the new one; every other
-- identity has the function that it had, and no type and no variable changed. What is returned is
-- what the identity now has.
pub get_function-set_function :
    (r : Repository) (id : Identity) (v : Function) {r' : Repository} {stored : Option Function}
    → set_function r id v ≡ ok (r', stored)
    → (stored ≡ some (or_else (get_function r id) v))
      × ((j : Identity)
          → (get_function r' j
              ≡ (if id_eq id j then some (or_else (get_function r id) v) else get_function r j))
            × (get_type r' j ≡ get_type r j)
            × (get_var r' j ≡ get_var r j))
unfolding set_function get_function get_type get_var
get_function-set_function r id v {r'} {stored} h =
    bind_ok (edit_package r id (store_function id.name v)) _ h λ r₁ e h'.
      let (pp, stored_pp, _, law) = get_package-edit_package r id _ e in
      let (written, kept_type, kept_var) =
        store_function_lem id.name v (old_package r id) stored_pp in
      let found =
        lookup_in_written (λ pkg. pkg.functions) r r₁ id pp law refl
          (or_else (lookup_in (λ pkg. pkg.functions) r id) v)
          (λ k. rw (← lookup_in_old (λ pkg. pkg.functions) r id refl) (written k)) in
      let same : r₁ ≡ r' = cc in
      (
        ground (arith, found id, id_eq_refl id),
        λ j. (
          rw (← same) (found j),
          rw (← same) (lookup_in_kept (λ pkg. pkg.types) r r₁ id pp law refl kept_type j),
          rw (← same) (lookup_in_kept (λ pkg. pkg.vars) r r₁ id pp law refl kept_var j),
        ),
      )

-- After SetType, the identity has the type that it had, or else the new one; every other
-- identity has the type that it had, and no function and no variable changed. What is returned is
-- what the identity now has.
pub get_type-set_type :
    (r : Repository) (id : Identity) (v : TypeDecl) {r' : Repository} {stored : Option TypeDecl}
    → set_type r id v ≡ ok (r', stored)
    → (stored ≡ some (or_else (get_type r id) v))
      × ((j : Identity)
          → (get_type r' j
              ≡ (if id_eq id j then some (or_else (get_type r id) v) else get_type r j))
            × (get_function r' j ≡ get_function r j)
            × (get_var r' j ≡ get_var r j))
unfolding set_type get_type get_function get_var
get_type-set_type r id v {r'} {stored} h =
    bind_ok (edit_package r id (store_type id.name v)) _ h λ r₁ e h'.
      let (pp, stored_pp, _, law) = get_package-edit_package r id _ e in
      let (written, kept_function, kept_var) =
        store_type_lem id.name v (old_package r id) stored_pp in
      let found =
        lookup_in_written (λ pkg. pkg.types) r r₁ id pp law refl
          (or_else (lookup_in (λ pkg. pkg.types) r id) v)
          (λ k. rw (← lookup_in_old (λ pkg. pkg.types) r id refl) (written k)) in
      let same : r₁ ≡ r' = cc in
      (
        ground (arith, found id, id_eq_refl id),
        λ j. (
          rw (← same) (found j),
          rw (← same) (lookup_in_kept (λ pkg. pkg.functions) r r₁ id pp law refl kept_function j),
          rw (← same) (lookup_in_kept (λ pkg. pkg.vars) r r₁ id pp law refl kept_var j),
        ),
      )

-- After SetVar, the identity has the variable that it had, or else the new one; every other
-- identity has the variable that it had, and no function and no type changed. What is returned is
-- what the identity now has.
pub get_var-set_var :
    (r : Repository) (id : Identity) (v : Var) {r' : Repository} {stored : Option Var}
    → set_var r id v ≡ ok (r', stored)
    → (stored ≡ some (or_else (get_var r id) v))
      × ((j : Identity)
          → (get_var r' j ≡ (if id_eq id j then some (or_else (get_var r id) v) else get_var r j))
            × (get_function r' j ≡ get_function r j)
            × (get_type r' j ≡ get_type r j))
unfolding set_var get_var get_function get_type
get_var-set_var r id v {r'} {stored} h =
    bind_ok (edit_package r id (store_var id.name v)) _ h λ r₁ e h'.
      let (pp, stored_pp, _, law) = get_package-edit_package r id _ e in
      let (written, kept_function, kept_type) =
        store_var_lem id.name v (old_package r id) stored_pp in
      let found =
        lookup_in_written (λ pkg. pkg.vars) r r₁ id pp law refl
          (or_else (lookup_in (λ pkg. pkg.vars) r id) v)
          (λ k. rw (← lookup_in_old (λ pkg. pkg.vars) r id refl) (written k)) in
      let same : r₁ ≡ r' = cc in
      (
        ground (arith, found id, id_eq_refl id),
        λ j. (
          rw (← same) (found j),
          rw (← same) (lookup_in_kept (λ pkg. pkg.functions) r r₁ id pp law refl kept_function j),
          rw (← same) (lookup_in_kept (λ pkg. pkg.types) r r₁ id pp law refl kept_type j),
        ),
      )

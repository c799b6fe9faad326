-- ===== src/Uniast/Node/Setters.antt =====
-- The setters of Node: they never panic, and they change what they set and nothing else.
use abcoder.Base.{
  ◌≡◌, refl, ap, ◌∙◌, Bool, true, false, ◌&&◌, Option, none, some, arith, if◌then◌else◌, inl, inr,
  Option-cases,
}
use abcoder.Base.Result.{Result, ok}
use abcoder.Base.GoMap.{GoMap, made, entries, assign, get}
use abcoder.Uniast.Identity.{Identity, id_eq_iff}
use abcoder.Uniast.Language.{NodeType, unknown, func, type, var}
use abcoder.Uniast.Model.{Package, Repository, Node}
use abcoder.Uniast.Repository.{
  get_module, get_package, get_function, get_type, get_var, edit_package,
}
use abcoder.Uniast.Repository.Entities.{lookup_in}
use abcoder.Uniast.Repository.Total.{put-get}
use abcoder.Uniast.Node.{
  Entity, function, type_decl, variable, entity_kind, shown, node_type_eq, option_map,
  lookup_entity, resolve, overwrite, write_node,
}
use abcoder.Uniast.Node.Write.{
  same_entity, resolve-write_node, resolve-eq-some, lookup_entity-kind, write_node-found,
}

-- An edit of a package that is there succeeds if the edit itself does.
edit_package-found :
    (r : Repository) (id : Identity) (edit : Package → Result Package) (pp pp' : Package)
    → get_package r id.mod_path id.pkg_path ≡ some pp
    → edit pp ≡ ok pp'
    → (r' : Repository) × (edit_package r id edit ≡ ok r')
unfolding edit_package get_package get_module
edit_package-found r id edit pp pp' found edited = elim (Option-cases (get r.modules id.mod_path)) [
  | inl gone ↦ absurd (ground arith)
  | inr (lib, e) ↦
      let pkgs : GoMap Package = made (assign id.pkg_path pp' (entries lib.packages)) in
      (
        record r {
          modules = made (assign id.mod_path (record lib { packages = pkgs }) (entries r.modules));
        },
        ground (
          arith,
          put-get lib.packages id.pkg_path pp' {w = pp},
          put-get r.modules id.mod_path (record lib { packages = pkgs }) e,
        ),
      )
]

option_map-eq-some {ℓ κ} :
    {A : Type ℓ} {B : Type κ} (f : A → B) (o : Option A) {b : B}
    → option_map f o ≡ some b
    → (a : A) × (o ≡ some a)
option_map-eq-some f none h = absurd (cc)
option_map-eq-some f (some a) h = (a, refl)

held_in {ℓ} :
    {V : Type ℓ} (sort : Package → GoMap V) (r : Repository) (id : Identity) {w : V}
    → lookup_in sort r id ≡ some w
    → (pp : Package) × (get_package r id.mod_path id.pkg_path ≡ some pp)
      × (get (sort pp) id.name ≡ some w)
held_in sort r id h = elim (Option-cases (get_package r id.mod_path id.pkg_path)) [
  | inl gone ↦ absurd (cc (rw gone at h))
  | inr (pp, e) ↦ (pp, e, rw e at h)
]

-- the package in which an entity was found, and the overwritten one
package_of :
    (r : Repository) (t : NodeType) (id : Identity) (e e' : Entity)
    → lookup_entity r t id ≡ some e
    → entity_kind e' ≡ t
    → (pp : Package) × (pp' : Package) × (get_package r id.mod_path id.pkg_path ≡ some pp)
      × (overwrite id.name e' pp ≡ ok pp')
unfolding lookup_entity overwrite get_function get_type get_var
package_of r unknown id e e' h k = absurd (cc)
package_of r func id e (function x) h k =
    let (w, e_w) = option_map-eq-some function (get_function r id) h in
    let (pp, e_pp, held) = held_in (λ pkg. pkg.functions) r id e_w in
    (
      pp,
      record pp { functions = made (assign id.name x (entries pp.functions)) },
      e_pp,
      rw (put-get pp.functions id.name x held),
    )
package_of r func id e (type_decl x) h k = absurd (cc)
package_of r func id e (variable x) h k = absurd (cc)
package_of r type id e (function x) h k = absurd (cc)
package_of r type id e (type_decl x) h k =
    let (w, e_w) = option_map-eq-some type_decl (get_type r id) h in
    let (pp, e_pp, held) = held_in (λ pkg. pkg.types) r id e_w in
    (
      pp,
      record pp { types = made (assign id.name x (entries pp.types)) },
      e_pp,
      rw (put-get pp.types id.name x held),
    )
package_of r type id e (variable x) h k = absurd (cc)
package_of r var id e (function x) h k = absurd (cc)
package_of r var id e (type_decl x) h k = absurd (cc)
package_of r var id e (variable x) h k =
    let (w, e_w) = option_map-eq-some variable (get_var r id) h in
    let (pp, e_pp, held) = held_in (λ pkg. pkg.vars) r id e_w in
    (
      pp,
      record pp { vars = made (assign id.name x (entries pp.vars)) },
      e_pp,
      rw (put-get pp.vars id.name x held),
    )

-- A write through a node never panics.
pub write_node-total :
    (r : Repository) (n : Node) (edit : Entity → Entity)
    → ((e : Entity) → entity_kind (edit e) ≡ entity_kind e)
    → (r' : Repository) × (done : Bool) × (write_node r n edit ≡ ok (r', done))
unfolding write_node
write_node-total r n edit keeps = elim (Option-cases (resolve r n)) [
  | inl missing ↦ (r, false, rw (missing, write_node))
  | inr (e, found) ↦
      let (here, there) = resolve-eq-some r n found in
      let (pp, pp', e_pp, e_pp') =
        package_of r n.node_type n.identity e (edit e) there
          (cc (keeps e, lookup_entity-kind r n.node_type n.identity there)) in
      let (r', written) =
        edit_package-found r n.identity (overwrite n.identity.name (edit e)) pp pp' e_pp e_pp' in
      (r', true, write_node-found r n edit e found ∙ rw written)
]

node_type_eq-eq : (s t : NodeType) → node_type_eq s t ≡ true → s ≡ t
node_type_eq-eq s t h = ground arith

same_entity-resolve :
    (r : Repository) (n m : Node)
    → n.attached ≡ true
    → same_entity n m ≡ true
    → resolve r m ≡ resolve r n
unfolding resolve
same_entity-resolve r n m here same =
    ground (arith, node_type_eq-eq n.node_type m.node_type, id_eq_iff n.identity m.identity)

module _ {ℓ} {A : Type ℓ} (field : Entity → A) (default : A) (r r' : Repository) (n : Node)
    (edit : Entity → Entity) (keeps : (e : Entity) → entity_kind (edit e) ≡ entity_kind e)
    (done : Bool) (written : write_node r n edit ≡ ok (r', done)) where
  pub write_node-done : done ≡ shown (λ _. true) false (resolve r n)
  write_node-done =
      let (found, missing) = resolve-write_node r n edit keeps written in
      elim (Option-cases (resolve r n)) [
        | inl gone ↦ rw gone (missing gone).0
        | inr (e, here) ↦ rw here (found e here).0
      ]

  -- a field that the edit leaves alone
  pub write_node-kept :
      ((e : Entity) → field (edit e) ≡ field e)
      → (m : Node) → shown field default (resolve r' m) ≡ shown field default (resolve r m)
  write_node-kept same m =
      let (found, missing) = resolve-write_node r n edit keeps written in
      elim (Option-cases (resolve r n)) [
        | inl gone ↦ ap (λ q. shown field default (resolve q m)) (missing gone).1
        | inr (e, here) ↦ ground (
          arith,
          (found e here).1 m,
          same e,
          same_entity-resolve r n m (resolve-eq-some r n here).0,
        )
      ]

  -- a field that the edit sets
  pub write_node-changed :
      (v : A)
      → ((e : Entity) → field (edit e) ≡ v)
      → (m : Node)
      → shown field default (resolve r' m)
        ≡ (if done && same_entity n m then v else shown field default (resolve r m))
  write_node-changed v sets m =
      let (found, missing) = resolve-write_node r n edit keeps written in
      elim (Option-cases (resolve r n)) [
        | inl gone ↦ ground (arith, (missing gone).0, (missing gone).1)
        | inr (e, here) ↦ ground (arith, (found e here).1 m, (found e here).0, sets e)
      ]

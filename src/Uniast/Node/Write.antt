-- ===== src/Uniast/Node/Write.antt =====
-- What the nodes of a repository show after a write through one of them.
use abcoder.Base.{
  ◌≡◌, refl, sym, ap, ◌∙◌, Bool, true, false, ◌&&◌, none, some, arith, if◌then◌else◌,
}
use abcoder.Base.Text.{Text, text_eq}
use abcoder.Base.Result.{ok, ◌>>=◌, bind_ok}
use abcoder.Base.GoMap.{get, put, get-put}
use abcoder.Uniast.Identity.{Identity, id_eq}
use abcoder.Uniast.Language.{NodeType, unknown, func, type, var}
use abcoder.Uniast.Model.{Function, TypeDecl, Var, Package, Repository, Node}
use abcoder.Uniast.Repository.{get_function, get_type, get_var, edit_package}
use abcoder.Uniast.Repository.Entities.{
  get_package-edit_package, old_package, lookup_in_written, lookup_in_kept,
}
use abcoder.Uniast.Node.{
  Entity, function, type_decl, variable, entity_kind, node_type_eq, option_map, lookup_entity,
  resolve, overwrite, write_node,
}

overwrite-function :
    (n : Text) (x : Function) (pp : Package) {pp' : Package}
    → overwrite n (function x) pp ≡ ok pp'
    → ((k : Text) → get pp'.functions k ≡ (if text_eq n k then some x else get pp.functions k))
      × (pp'.types ≡ pp.types)
      × (pp'.vars ≡ pp.vars)
unfolding overwrite
overwrite-function n x pp h =
    bind_ok (put pp.functions n x) _ h
      λ m e h'. (λ k. ground (arith, get-put pp.functions n k x e), ground arith, ground arith)

overwrite-type_decl :
    (n : Text) (x : TypeDecl) (pp : Package) {pp' : Package}
    → overwrite n (type_decl x) pp ≡ ok pp'
    → ((k : Text) → get pp'.types k ≡ (if text_eq n k then some x else get pp.types k))
      × (pp'.functions ≡ pp.functions)
      × (pp'.vars ≡ pp.vars)
unfolding overwrite
overwrite-type_decl n x pp h =
    bind_ok (put pp.types n x) _ h
      λ m e h'. (λ k. ground (arith, get-put pp.types n k x e), ground arith, ground arith)

overwrite-variable :
    (n : Text) (x : Var) (pp : Package) {pp' : Package}
    → overwrite n (variable x) pp ≡ ok pp'
    → ((k : Text) → get pp'.vars k ≡ (if text_eq n k then some x else get pp.vars k))
      × (pp'.functions ≡ pp.functions)
      × (pp'.types ≡ pp.types)
unfolding overwrite
overwrite-variable n x pp h =
    bind_ok (put pp.vars n x) _ h
      λ m e h'. (λ k. ground (arith, get-put pp.vars n k x e), ground arith, ground arith)

-- After the entity under an identity was overwritten, a lookup finds the new entity at the place
-- and for the type of the write, and what it found before everywhere else.
pub lookup_entity-overwrite :
    (r r' : Repository) (id : Identity) (e : Entity)
    → edit_package r id (overwrite id.name e) ≡ ok r'
    → (t : NodeType) (j : Identity)
    → lookup_entity r' t j
      ≡ (if node_type_eq (entity_kind e) t && id_eq id j then some e else lookup_entity r t j)
unfolding lookup_entity get_function get_type get_var
lookup_entity-overwrite r r' id (function x) h =
    let (pp, e_pp, _, law) = get_package-edit_package r id _ h in
    let (written, kept, kept') = overwrite-function id.name x (old_package r id) e_pp in
    λ t j.
      elim t
        as (λ t'. lookup_entity r' t' j ≡ (
          if node_type_eq func t' && id_eq id j then some (function x) else lookup_entity r t' j)) [
            | unknown ↦ refl
            | func ↦
                ground
                  (arith, lookup_in_written (λ pkg. pkg.functions) r r' id pp law refl x written j)
            | type ↦
                ap (option_map type_decl)
                  (lookup_in_kept (λ pkg. pkg.types) r r' id pp law refl kept j)
            | var ↦
                ap (option_map variable)
                  (lookup_in_kept (λ pkg. pkg.vars) r r' id pp law refl kept' j)
          ]
lookup_entity-overwrite r r' id (type_decl x) h =
    let (pp, e_pp, _, law) = get_package-edit_package r id _ h in
    let (written, kept, kept') = overwrite-type_decl id.name x (old_package r id) e_pp in
    λ t j.
      elim t
        as (λ t'. lookup_entity r' t' j ≡ (
          if node_type_eq type t' && id_eq id j
          then some (type_decl x)
          else lookup_entity r t' j)) [
            | unknown ↦ refl
            | func ↦
                ap (option_map function)
                  (lookup_in_kept (λ pkg. pkg.functions) r r' id pp law refl kept j)
            | type ↦
                ground (arith, lookup_in_written (λ pkg. pkg.types) r r' id pp law refl x written j)
            | var ↦
                ap (option_map variable)
                  (lookup_in_kept (λ pkg. pkg.vars) r r' id pp law refl kept' j)
          ]
lookup_entity-overwrite r r' id (variable x) h =
    let (pp, e_pp, _, law) = get_package-edit_package r id _ h in
    let (written, kept, kept') = overwrite-variable id.name x (old_package r id) e_pp in
    λ t j.
      elim t
        as (λ t'. lookup_entity r' t' j ≡ (
          if node_type_eq var t' && id_eq id j then some (variable x) else lookup_entity r t' j)) [
            | unknown ↦ refl
            | func ↦
                ap (option_map function)
                  (lookup_in_kept (λ pkg. pkg.functions) r r' id pp law refl kept j)
            | type ↦
                ap (option_map type_decl)
                  (lookup_in_kept (λ pkg. pkg.types) r r' id pp law refl kept' j)
            | var ↦
                ground (arith, lookup_in_written (λ pkg. pkg.vars) r r' id pp law refl x written j)
          ]

pub lookup_entity-kind :
    (r : Repository) (t : NodeType) (id : Identity) {e : Entity}
    → lookup_entity r t id ≡ some e
    → entity_kind e ≡ t
unfolding lookup_entity
lookup_entity-kind r unknown id h = cc
lookup_entity-kind r func id h = ground arith
lookup_entity-kind r type id h = ground arith
lookup_entity-kind r var id h = ground arith

-- one node is attached, and has the type and the identity of another
abbrev pub same_entity : Node → Node → Bool
same_entity n m =
    m.attached && (node_type_eq n.node_type m.node_type && id_eq n.identity m.identity)

pub resolve-eq-some :
    (r : Repository) (n : Node) {e : Entity}
    → resolve r n ≡ some e
    → (n.attached ≡ true) × (lookup_entity r n.node_type n.identity ≡ some e)
unfolding resolve
resolve-eq-some r n h = ground arith

pub write_node-found :
    (r : Repository) (n : Node) (edit : Entity → Entity) (e : Entity)
    → resolve r n ≡ some e
    → write_node r n edit
      ≡ (edit_package r n.identity (overwrite n.identity.name (edit e)) >>= λ r'. ok (r', true))
unfolding write_node
write_node-found r n edit e h = rw (h, write_node)

resolve-overwrite :
    (r r' : Repository) (n m : Node) (e e' : Entity)
    → resolve r n ≡ some e
    → entity_kind e' ≡ entity_kind e
    → edit_package r n.identity (overwrite n.identity.name e') ≡ ok r'
    → resolve r' m ≡ (if same_entity n m then some e' else resolve r m)
unfolding resolve
resolve-overwrite r r' n m e e' h same_kind written =
    let (here, there) = resolve-eq-some r n h in
    let kind : entity_kind e' ≡ n.node_type =
      cc (lookup_entity-kind r n.node_type n.identity there) in
    rw (lookup_entity-overwrite r r' n.identity e' written m.node_type m.identity)
      (rw kind (ground arith))

-- After a write through a node that resolves to an entity, the attached nodes with its type and
-- identity resolve to the edited entity, and all other nodes to what they did before. A write
-- through any other node changes nothing and says so. The edit must not change the entity's type.
pub resolve-write_node :
    (r : Repository) (n : Node) (edit : Entity → Entity)
    → ((e : Entity) → entity_kind (edit e) ≡ entity_kind e)
    → {r' : Repository} {done : Bool} → write_node r n edit ≡ ok (r', done)
    → ((e : Entity)
        → resolve r n ≡ some e
        → (done ≡ true)
          × ((m : Node) → resolve r' m ≡ (if same_entity n m then some (edit e) else resolve r m)))
      × (resolve r n ≡ none → (done ≡ false) × (r' ≡ r))
unfolding write_node
resolve-write_node r n edit keeps {r'} {done} h = (
  λ e found.
      bind_ok (edit_package r n.identity (overwrite n.identity.name (edit e))) _
        (sym (write_node-found r n edit e found) ∙ h)
        λ r₁ written out.
          let same : r₁ ≡ r' = cc in
          (cc, λ m. rw (← same) (resolve-overwrite r r₁ n m e (edit e) found (keeps e) written)),
  λ missing. (ground arith, ground arith),
)

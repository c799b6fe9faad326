-- ===== src/Uniast/Graph/Mirror.antt =====
-- Composing actions that add edges: the loops over the slices of an entity.
use abcoder.Base.{
  ◌≡◌, refl, ◌||◌, List, [], ◌∷◌, ◌++◌, Option, none, some, arith, Option-cases, inl, inr,
}
use abcoder.Base.Text.{Text, text_eq_iff}
use abcoder.Base.Result.{Result, ok, deref, ◌>>=◌, each, bind_ok}
use abcoder.Base.GoMap.{GoMap, get, put, get-put}
use abcoder.Uniast.Identity.{Identity, full}
use abcoder.Uniast.Language.{NodeType, unknown, func, type, var}
use abcoder.Uniast.Model.{Dependency, Package, RelationKind, Node, Repository}
use abcoder.Uniast.Zero.{bare_function, bare_type, bare_var}
use abcoder.Uniast.Repository.{
  edit_package, store_function, store_type, store_var, set_function, set_type, set_var,
}
use abcoder.Uniast.Repository.Entities.{get_package-edit_package}
use abcoder.Uniast.Node.{file_line}
use abcoder.Uniast.Relations.{targets}
use abcoder.Uniast.Graph.{
  place_entity, settled_node, set_node, add_relation, add_dependencies, add_identities,
}
use abcoder.Uniast.Graph.Edges.{
  IsKeyed, Adds, depends_on, refers_to, edge_mem, edges_of, add_relation-Adds,
}
use abcoder.Uniast.Graph.Build.{gather, dependency_edges, identity_edges}

pub edge_mem-append :
    (k j : Text) (es fs : List (Text × Text))
    → edge_mem k j (es ++ fs) ≡ (edge_mem k j es || edge_mem k j fs)
unfolding edge_mem
edge_mem-append k j [] fs = refl
edge_mem-append k j ((a, b) ∷ es) fs = ground (arith, edge_mem-append k j es fs)

pub Adds-refl : (g : GoMap Node) → IsKeyed g → Adds g g []
unfolding edge_mem
Adds-refl g keyed = record { keyed = keyed; deps = λ k j. refl; refs = λ k j. refl }

pub Adds-trans :
    {g h i : GoMap Node} {es fs : List (Text × Text)}
    → Adds g h es
    → Adds h i fs
    → Adds g i (es ++ fs)
Adds-trans {es = es} {fs = fs} a b = record {
  keyed = b.keyed;
  deps = λ k j. ground (arith, a.deps k j, b.deps k j, edge_mem-append k j es fs);
  refs = λ k j. ground (arith, a.refs k j, b.refs k j, edge_mem-append k j es fs);
}

-- an action that, from a keyed graph and where it succeeds, adds these edges
abbrev pub Extends : (Repository → Result Repository) → List (Text × Text) → Type 0
Extends act es = (r r' : Repository) → IsKeyed r.graph → act r ≡ ok r' → Adds r.graph r'.graph es

pub Extends->>= :
    (act next : Repository → Result Repository) (es fs : List (Text × Text))
    → Extends act es
    → Extends next fs
    → Extends (λ r. act r >>= next) (es ++ fs)
Extends->>= act next es fs a b r r' keyed h =
    bind_ok (act r) next h
      λ q e₁ e₂. let first = a r q keyed e₁ in Adds-trans first (b q r' first.keyed e₂)

pub Extends-each {ℓ} :
    {A : Type ℓ} (body : Repository → A → Result Repository) (edges : A → List (Text × Text))
    → ((x : A) → Extends (λ r. body r x) (edges x))
    → (xs : List A) → Extends (each body xs) (gather edges xs)
unfolding each
Extends-each body edges step [] r r' keyed h =
    let same : r ≡ r' = cc in rw (← same) (Adds-refl r.graph keyed)
Extends-each body edges step (x ∷ xs) r r' keyed h =
    Extends->>= (λ q. body q x) (each body xs) (edges x) (gather edges xs) (step x)
      (Extends-each body edges step xs) r r' keyed h

pub Extends-ok : Extends ok []
Extends-ok r r' keyed h = let same : r ≡ r' = cc in rw (← same) (Adds-refl r.graph keyed)

pub graph-edit_package :
    (r : Repository) (id : Identity) (edit : Package → Result Package) (r' : Repository)
    → edit_package r id edit ≡ ok r'
    → r'.graph ≡ r.graph
graph-edit_package r id edit r' h = (get_package-edit_package r id edit h).2

-- creating an entity leaves the graph alone
pub graph-place_entity :
    (r r' : Repository) (id : Identity) (t : NodeType)
    → place_entity r id t ≡ ok r'
    → r'.graph ≡ r.graph
unfolding place_entity set_function set_type set_var
graph-place_entity r r' id unknown h = ground arith
graph-place_entity r r' id func h =
    ground (arith, graph-edit_package r id (store_function id.name (bare_function id)) r')
graph-place_entity r r' id type h =
    ground (arith, graph-edit_package r id (store_type id.name (bare_type id)) r')
graph-place_entity r r' id var h =
    ground (arith, graph-edit_package r id (store_var id.name (bare_var id)) r')

-- a new node has no edges
settled_node-parts :
    (o : Option Node) (id : Identity) (t : NodeType)
    → (o ≡ none → full (settled_node o id t).identity ≡ full id)
      × ((n : Node) → o ≡ some n → (settled_node o id t).identity ≡ n.identity)
      × ((j : Text) → depends_on j (some (settled_node o id t)) ≡ depends_on j o)
      × ((j : Text) → refers_to j (some (settled_node o id t)) ≡ refers_to j o)
unfolding targets
settled_node-parts none id t = (λ _. refl, λ n h. cc, λ j. refl, λ j. refl)
settled_node-parts (some m) id t = (λ h. cc, λ n h. ground arith, λ j. refl, λ j. refl)

settled-Adds :
    (g h : GoMap Node) (id : Identity) (t : NodeType)
    → IsKeyed g
    → put g (full id) (settled_node (get g (full id)) id t) ≡ ok h
    → Adds g h []
unfolding edge_mem
settled-Adds g h id t keyed e =
    let (fresh, old, deps, refs) = settled_node-parts (get g (full id)) id t in
    let node = settled_node (get g (full id)) id t in
    let law = λ (k : Text). get-put g (full id) k node e in
    record {
      keyed = λ k n found. elim (Option-cases (get g (full id))) [
        | inl gone ↦ ground (arith, law k, fresh gone, keyed k n, text_eq_iff (full id) k)
        | inr (m, there) ↦
            ground (
              arith,
              law k,
              old m there,
              keyed k n,
              keyed (full id) m there,
              text_eq_iff (full id) k,
            )
      ];
      deps = λ k j. ground (arith, law k, deps j, text_eq_iff (full id) k);
      refs = λ k j. ground (arith, law j, refs k, text_eq_iff (full id) j);
    }

pub set_node-Extends : (id : Identity) (t : NodeType) → Extends (λ r. set_node r id t) []
unfolding set_node
set_node-Extends id t r r' keyed h =
    bind_ok (put r.graph (full id) (settled_node (get r.graph (full id)) id t)) _ h λ g e h'.
      rw (graph-place_entity (record r { graph = g }) r' id t h')
        (settled-Adds r.graph g id t keyed e)

pub add_dependencies-Extends :
    (key : Text) (kind : RelationKind) (deps : List Dependency)
    → Extends (λ r. add_dependencies key kind r deps) (dependency_edges key kind deps)
unfolding add_dependencies dependency_edges
add_dependencies-Extends key kind deps =
    Extends-each (λ r dep. add_relation r key dep.identity dep.file_line (kind ∷ []))
      (λ dep. edges_of kind key (full dep.identity))
      (λ dep r r' keyed h. add_relation-Adds r key dep.identity dep.file_line kind keyed h) deps

pub add_identities-Extends :
    (key : Text) (kind : RelationKind) (ids : List Identity)
    → Extends (λ r. add_identities key kind r ids) (identity_edges key kind ids)
unfolding add_identities identity_edges
add_identities-Extends key kind ids =
    Extends-each _ (λ id. edges_of kind key (full id))
      (λ id r r' keyed h.
        bind_ok (deref (get r.graph key)) _ h
          λ node e h'. add_relation-Adds r key id (file_line r node) kind keyed h')
      ids

-- ===== src/Uniast/Graph/Declared.antt =====
-- BuildGraph refines the declared edges: its dependencies and its references are exactly those.
use abcoder.Base.{
  ◌≡◌, refl, List, [], ◌∷◌, append-nil, Option, none, some, arith, Bool-cases, inl, inr,
}
use abcoder.Base.Text.{Text}
use abcoder.Base.Result.{ok, each, bind_ok}
use abcoder.Base.GoMap.{made, entries, get, get-made_nil}
use abcoder.Uniast.Identity.{Identity, full}
use abcoder.Uniast.Language.{func, type, var}
use abcoder.Uniast.Model.{
  FileLine, Dependency, Receiver, Function, TypeDecl, Var, Package, Module, dependency, implement,
  inherit, group, Node, Repository,
}
use abcoder.Uniast.Repository.{is_external}
use abcoder.Uniast.Node.{option_map}
use abcoder.Uniast.Graph.{
  add_receiver, graph_function, graph_type, add_var_type, graph_var, graph_package, graph_module,
}
use abcoder.Uniast.Graph.Edges.{
  IsKeyed, depends_on, refers_to, edge_mem, edges_of, add_relation-Adds,
}
use abcoder.Uniast.Graph.Sort.{sort_node, sort_graph, get-sort_graph, targets-sort_relations}
use abcoder.Uniast.Graph.Build.{
  build_graph, dependency_edges, identity_edges, receiver_edges, function_edges, type_edges,
  var_type_edges, var_edges, package_edges, module_edges, declared_edges,
}
use abcoder.Uniast.Graph.Mirror.{
  Extends, Extends->>=, Extends-each, Extends-ok, set_node-Extends, add_dependencies-Extends,
  add_identities-Extends,
}

dependency_edges-inherit :
    (key : Text) (deps : List Dependency) → dependency_edges key inherit deps ≡ []
unfolding dependency_edges edges_of
dependency_edges-inherit key [] = refl
dependency_edges-inherit key (dep ∷ deps) = dependency_edges-inherit key deps

identity_edges-implement :
    (key : Text) (ids : List Identity) → identity_edges key implement ids ≡ []
unfolding identity_edges edges_of
identity_edges-implement key [] = refl
identity_edges-implement key (id ∷ ids) = identity_edges-implement key ids

identity_edges-group : (key : Text) (ids : List Identity) → identity_edges key group ids ≡ []
unfolding identity_edges edges_of
identity_edges-group key [] = refl
identity_edges-group key (id ∷ ids) = identity_edges-group key ids

add_receiver-Extends :
    (key : Text) (rcv : Option Receiver)
    → Extends (λ r. add_receiver key r rcv) (receiver_edges key rcv)
unfolding add_receiver identity_edges edges_of
add_receiver-Extends key none = Extends-ok
add_receiver-Extends key (some rcv) = add_identities-Extends key dependency (rcv.receiver_type ∷ [])

add_var_type-Extends :
    (key : Text) (fl : FileLine) (id : Option Identity)
    → Extends (λ r. add_var_type key fl r id) (var_type_edges key id)
unfolding add_var_type edges_of
add_var_type-Extends key fl none = Extends-ok
add_var_type-Extends key fl (some id) =
    λ r r' keyed h. add_relation-Adds r key id fl dependency keyed h

graph_function-Extends :
    (e : Text × Function) → Extends (λ r. graph_function r e) (function_edges e)
unfolding graph_function
graph_function-Extends (n, f) =
    let key = full f.identity in
    let deps = λ (l : List Dependency). add_dependencies-Extends key dependency l in
    Extends->>= _ _ [] _ (set_node-Extends f.identity func) (
      Extends->>= _ _ _ _ (deps f.params) (
        Extends->>= _ _ _ _ (deps f.results) (
          Extends->>= _ _ _ _ (deps f.function_calls) (
            Extends->>= _ _ _ _ (deps f.method_calls) (
              Extends->>= _ _ _ _ (deps f.types) (
                Extends->>= _ _ _ _ (add_receiver-Extends key f.receiver) (deps f.global_vars)))))))

graph_type-Extends : (e : Text × TypeDecl) → Extends (λ r. graph_type r e) (type_edges e)
unfolding graph_type
graph_type-Extends (n, t) =
    let key = full t.identity in
    rw (← append-nil (dependency_edges key dependency t.sub_struct)) (
      Extends->>= _ _ [] _ (set_node-Extends t.identity type) (
        Extends->>= _ _ _ [] (add_dependencies-Extends key dependency t.sub_struct) (
          Extends->>= _ _ [] []
            (rw dependency_edges-inherit at (add_dependencies-Extends key inherit t.inline_struct))
            (rw identity_edges-implement at (add_identities-Extends key implement t.implements)))))

graph_var-Extends : (e : Text × Var) → Extends (λ r. graph_var r e) (var_edges e)
unfolding graph_var
graph_var-Extends (n, v) =
    let key = full v.identity in
    rw (← append-nil (dependency_edges key dependency v.dependencies)) (
      Extends->>= _ _ [] _ (set_node-Extends v.identity var) (
        Extends->>= _ _ _ _ (add_var_type-Extends key v.file_line v.var_type) (
          Extends->>= _ _ _ [] (add_dependencies-Extends key dependency v.dependencies)
            (rw identity_edges-group at (add_identities-Extends key group v.groups)))))

graph_package-Extends : (e : Text × Package) → Extends (λ r. graph_package r e) (package_edges e)
unfolding graph_package
graph_package-Extends (p, pkg) =
    Extends->>= _ _ _ _
      (Extends-each graph_function function_edges graph_function-Extends (entries pkg.functions))
      (Extends->>= _ _ _ _
        (Extends-each graph_type type_edges graph_type-Extends (entries pkg.types))
        (Extends-each graph_var var_edges graph_var-Extends (entries pkg.vars)))

graph_module-Extends : (e : Text × Module) → Extends (λ r. graph_module r e) (module_edges e)
unfolding graph_module
graph_module-Extends (k, m) = elim (Bool-cases (is_external m)) [
  | inl out ↦ rw out Extends-ok
  | inr inside ↦
      rw inside
        (Extends-each graph_package package_edges graph_package-Extends (entries m.packages))
]

depends_on-sort_node :
    (j : Text) (o : Option Node) → depends_on j (option_map sort_node o) ≡ depends_on j o
unfolding sort_node
depends_on-sort_node j none = refl
depends_on-sort_node j (some n) = targets-sort_relations j n.dependencies

refers_to-sort_node :
    (j : Text) (o : Option Node) → refers_to j (option_map sort_node o) ≡ refers_to j o
unfolding sort_node
refers_to-sort_node j none = refl
refers_to-sort_node j (some n) = targets-sort_relations j n.references

-- In the built graph a node depends on another exactly if an entity of an internal module declares
-- that edge, and exactly then the other has the reference back. The entities' order, the graph
-- that was there before, and duplicates play no part.
pub build_graph_edges :
    (r r' : Repository)
    → build_graph r ≡ ok r'
    → (k j : Text)
    → (depends_on j (get r'.graph k) ≡ edge_mem k j (declared_edges r))
      × (refers_to k (get r'.graph j) ≡ edge_mem k j (declared_edges r))
unfolding build_graph
build_graph_edges r r' h k j =
    bind_ok (each graph_module (entries r.modules) (record r { graph = made [] })) _ h λ q e₁ e₂.
      let start : IsKeyed (made []) =
        λ k' n found. absurd (cc (found, get-made_nil {V = Node} k')) in
      let added =
        Extends-each graph_module module_edges graph_module-Extends (entries r.modules)
          (record r { graph = made [] }) q start e₁ in
      let graph : r'.graph ≡ sort_graph q.graph = ground arith in
      (
        ground (
          arith,
          graph,
          get-sort_graph k q.graph,
          depends_on-sort_node j (get q.graph k),
          added.deps k j,
          get-made_nil {V = Node} k,
        ),
        ground (
          arith,
          graph,
          get-sort_graph j q.graph,
          refers_to-sort_node k (get q.graph j),
          added.refs k j,
          get-made_nil {V = Node} j,
        ),
      )

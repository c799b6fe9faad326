-- ===== src/Uniast/Graph/Frame.antt =====
-- BuildGraph does not panic, and does not touch the entities, where each entity is found under the
-- identity that it carries.
use abcoder.Base.{◌≡◌, refl, false, List, [], ◌∷◌, Bool-cases, inl, inr}
use abcoder.Base.Text.{Text, All}
use abcoder.Base.Result.{Result, ok, ◌>>=◌}
use abcoder.Base.GoMap.{made, entries}
use abcoder.Uniast.Identity.{Identity, full}
use abcoder.Uniast.Language.{func, type, var}
use abcoder.Uniast.Model.{
  Function, TypeDecl, Var, Package, Module, dependency, implement, inherit, group, Repository,
}
use abcoder.Uniast.Repository.{is_external}
use abcoder.Uniast.Graph.{
  set_node, graph_function, graph_type, graph_var, graph_package, graph_module,
}
use abcoder.Uniast.Graph.Sort.{sort_graph}
use abcoder.Uniast.Graph.Build.{build_graph}
use abcoder.Uniast.Graph.Total.{
  Resolves, IsOn, IsAt, Keeps, Keeps->>=, Keeps-each, set_node-on, add_dependencies-Keeps,
  add_identities-Keeps, add_receiver-Keeps, add_var_type-Keeps,
}

abbrev pub IsHomePackage : Repository → Package → Type 0
IsHomePackage r pkg =
    All (λ e. Resolves r func e.1.identity) (entries pkg.functions)
    × All (λ e. Resolves r type e.1.identity) (entries pkg.types)
    × All (λ e. Resolves r var e.1.identity) (entries pkg.vars)

-- Each entity of an internal module is found under the identity that it carries.
abbrev pub IsHome : Repository → Type 0
IsHome r =
    All (λ m. is_external m.1 ≡ false → All (λ p. IsHomePackage r p.1) (entries m.1.packages))
      (entries r.modules)

module _ (R : Repository) where
  -- the loops over an entity, after its node was set
  with_node :
      (id : Identity) (t : _) (rest : Repository → Result Repository)
      → Resolves R t id
      → Keeps R (IsAt R (full id)) rest
      → Keeps R (IsOn R) (λ r. set_node r id t >>= rest)
  with_node id t rest home keeps r on =
      let (q, e, at) = set_node-on R id t home r on in
      let (r', e', at') = keeps q at in (r', rw e e', at'.on)

  graph_function-Keeps :
      (n : Text) (f : Function)
      → Resolves R func f.identity
      → Keeps R (IsOn R) (λ r. graph_function r (n, f))
  unfolding graph_function
  graph_function-Keeps n f home =
      let key = full f.identity in
      let deps = add_dependencies-Keeps R key dependency in
      let chain = Keeps->>= R {P = IsAt R key} in
      with_node f.identity func _ home (
        chain _ _ (deps f.params) (
          chain _ _ (deps f.results) (
            chain _ _ (deps f.function_calls) (
              chain _ _ (deps f.method_calls) (
                chain _ _ (deps f.types)
                  (chain _ _ (add_receiver-Keeps R key f.receiver) (deps f.global_vars)))))))

  graph_type-Keeps :
      (n : Text) (t : TypeDecl)
      → Resolves R type t.identity
      → Keeps R (IsOn R) (λ r. graph_type r (n, t))
  unfolding graph_type
  graph_type-Keeps n t home =
      let key = full t.identity in
      let chain = Keeps->>= R {P = IsAt R key} in
      with_node t.identity type _ home (
        chain _ _ (add_dependencies-Keeps R key dependency t.sub_struct) (
          chain _ _ (add_dependencies-Keeps R key inherit t.inline_struct)
            (add_identities-Keeps R key implement t.implements)))

  graph_var-Keeps :
      (n : Text) (v : Var) → Resolves R var v.identity → Keeps R (IsOn R) (λ r. graph_var r (n, v))
  unfolding graph_var
  graph_var-Keeps n v home =
      let key = full v.identity in
      let chain = Keeps->>= R {P = IsAt R key} in
      with_node v.identity var _ home (
        chain _ _ (add_var_type-Keeps R key v.file_line v.var_type) (
          chain _ _ (add_dependencies-Keeps R key dependency v.dependencies)
            (add_identities-Keeps R key group v.groups)))

  entries-Keeps {ℓ} :
      {A : Type ℓ} (Q : A → Type 0) (body : Repository → Text × A → Result Repository)
      → ((n : Text) (a : A) → Q a → Keeps R (IsOn R) (λ r. body r (n, a)))
      → (es : List (Text × A)) → All (λ e. Q e.1) es
      → All (λ e. Keeps R (IsOn R) (λ r. body r e)) es
  entries-Keeps Q body step [] h = tt
  entries-Keeps Q body step ((n, a) ∷ es) (ha, hs) = (step n a ha, entries-Keeps Q body step es hs)

  graph_package-Keeps :
      (p : Text) (pkg : Package)
      → IsHomePackage R pkg
      → Keeps R (IsOn R) (λ r. graph_package r (p, pkg))
  unfolding graph_package
  graph_package-Keeps p pkg (fs, ts, vs) =
      let chain = Keeps->>= R {P = IsOn R} in
      chain _ _
        (Keeps-each R graph_function (entries pkg.functions)
          (entries-Keeps _ graph_function graph_function-Keeps (entries pkg.functions) fs))
        (chain _ _
          (Keeps-each R graph_type (entries pkg.types)
            (entries-Keeps _ graph_type graph_type-Keeps (entries pkg.types) ts))
          (Keeps-each R graph_var (entries pkg.vars)
            (entries-Keeps _ graph_var graph_var-Keeps (entries pkg.vars) vs)))

  graph_module-Keeps :
      (k : Text) (m : Module)
      → (is_external m ≡ false → All (λ p. IsHomePackage R p.1) (entries m.packages))
      → Keeps R (IsOn R) (λ r. graph_module r (k, m))
  unfolding graph_module
  graph_module-Keeps k m home r on = elim (Bool-cases (is_external m)) [
    | inl out ↦ (r, rw out, on)
    | inr inside ↦
        let (r', e, on') =
          Keeps-each R graph_package (entries m.packages)
            (entries-Keeps _ graph_package graph_package-Keeps (entries m.packages) (home inside)) r
            on in
        (r', rw inside e, on')
  ]

-- If each entity of an internal module is found under the identity that it carries, BuildGraph
-- succeeds, whatever graph was there, and leaves the modules as they are.
pub build_graph-total :
    (r : Repository)
    → IsHome r
    → (r' : Repository) × (build_graph r ≡ ok r') × (r'.modules ≡ r.modules)
unfolding build_graph
build_graph-total r home =
    let start : Repository = record r { graph = made [] } in
    let (q, e, on) =
      Keeps-each r graph_module (entries r.modules)
        (entries-Keeps r _ graph_module (graph_module-Keeps r) (entries r.modules) home) start
        (record { same = refl; graph_made = tt }) in
    (record q { graph = sort_graph q.graph }, rw e, on.same)

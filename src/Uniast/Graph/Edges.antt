-- ===== src/Uniast/Graph/Edges.antt =====
-- The edges that SetNode and AddRelation add: every dependency is mirrored by a reference.
use abcoder.Base.{
  ◌≡◌, refl, Bool, true, false, ◌&&◌, ◌||◌, List, [], ◌∷◌, Option, none, some, arith, Bool-cases,
  Option-cases, inl, inr, if◌then◌else◌,
}
use abcoder.Base.Int.{ℤ}
use abcoder.Base.Text.{Text, text_eq, text_eq_iff, text_eq_refl}
use abcoder.Base.Result.{ok, deref, bind_ok}
use abcoder.Base.GoMap.{GoMap, get, put, or_else, get-put}
use abcoder.Uniast.Identity.{Identity, full}
use abcoder.Uniast.Language.{NodeType, unknown}
use abcoder.Uniast.Model.{
  FileLine, RelationKind, dependency, implement, inherit, group, Node, Repository,
}
use abcoder.Uniast.Zero.{bare_relation, new_node}
use abcoder.Uniast.Node.{file_line}
use abcoder.Uniast.Relations.{targets, targets-insert_relation}
use abcoder.Uniast.Graph.{
  add_relation, cal_offset, relate, relate_all, refer, refer_all, found_type, typed_node,
}

-- Every node stands under the print of its identity.
abbrev pub IsKeyed : GoMap Node → Type 0
IsKeyed g = (k : Text) (n : Node) → get g k ≡ some n → full n.identity ≡ k

abbrev pub depends_on : Text → Option Node → Bool
depends_on j none = false
depends_on j (some n) = targets j n.dependencies

abbrev pub refers_to : Text → Option Node → Bool
refers_to j none = false
refers_to j (some n) = targets j n.references

-- The edge from k to j is in the list.
unfoldable pub edge_mem : Text → Text → List (Text × Text) → Bool
edge_mem k j [] = false
edge_mem k j ((a, b) ∷ es) = (text_eq a k && text_eq b j) || edge_mem k j es

-- `h` is `g` with the edges added, to the dependencies at the source and to the references at the
-- target, and with nothing else added or lost there.
pub record Adds (g h : GoMap Node) (es : List (Text × Text)) : Type 0 where
  pub keyed : IsKeyed h
  pub deps : (k j : Text) → depends_on j (get h k) ≡ (edge_mem k j es || depends_on j (get g k))
  pub refs : (k j : Text) → refers_to k (get h j) ≡ (edge_mem k j es || refers_to k (get g j))

unfoldable pub edges_of : RelationKind → Text → Text → List (Text × Text)
edges_of dependency k j = (k, j) ∷ []
edges_of implement k j = []
edges_of inherit k j = []
edges_of group k j = []

typed_node-kept :
    (t : Option NodeType) (nd : Node)
    → ((typed_node t nd).identity ≡ nd.identity)
      × ((typed_node t nd).dependencies ≡ nd.dependencies)
      × ((typed_node t nd).references ≡ nd.references)
typed_node-kept none nd = (refl, refl, refl)
typed_node-kept (some t) nd = (refl, refl, refl)

-- the node that AddRelation writes under the target's key
abbrev target_node : Repository → Node → Text → Identity → ℤ → RelationKind → Node
target_node r node key dep l kind = typed_node (found_type r dep) (
    refer node.identity l
      (or_else
        (if text_eq key (full dep) then some (relate dep l node kind) else get r.graph (full dep))
        (new_node dep unknown true))
      kind)

get-add_relation :
    (r : Repository) (key : Text) (dep : Identity) (fl : FileLine) (kind : RelationKind)
    {r' : Repository}
    → add_relation r key dep fl (kind ∷ []) ≡ ok r'
    → (node : Node) × (get r.graph key ≡ some node)
      × (r'.modules ≡ r.modules)
      × ((k : Text)
          → get r'.graph k ≡ (
              if text_eq (full dep) k
              then some (target_node r node key dep (cal_offset (file_line r node) fl) kind)
              else if text_eq key k
              then some (relate dep (cal_offset (file_line r node) fl) node kind)
              else get r.graph k))
unfolding add_relation relate_all refer_all
get-add_relation r key dep fl kind {r'} h = bind_ok (deref (get r.graph key)) _ h λ node e₁ h₁.
    let l = cal_offset (file_line r node) fl in
    bind_ok (put r.graph key (relate dep l node kind)) _ h₁ λ g e₂ h₂.
      bind_ok
        (put g (full dep) (
          typed_node (found_type r dep)
            (refer node.identity l (or_else (get g (full dep)) (new_node dep unknown true)) kind)))
        _ h₂
        λ g' e₃ h₃. (
          node,
          ground arith,
          ground arith,
          λ k. cc (
            h₃,
            get-put g (full dep) k _ e₃,
            get-put r.graph key k _ e₂,
            get-put r.graph key (full dep) _ e₂,
          ),
        )

edge_mem-edges_of :
    (kind : RelationKind) (a b k j : Text)
    → text_eq a k ≡ false
    → edge_mem k j (edges_of kind a b) ≡ false
unfolding edge_mem edges_of
edge_mem-edges_of dependency a b k j h = ground arith
edge_mem-edges_of implement a b k j h = refl
edge_mem-edges_of inherit a b k j h = refl
edge_mem-edges_of group a b k j h = refl

edge_mem-edges_of_target :
    (kind : RelationKind) (a b k j : Text)
    → text_eq b j ≡ false
    → edge_mem k j (edges_of kind a b) ≡ false
unfolding edge_mem edges_of
edge_mem-edges_of_target dependency a b k j h = ground arith
edge_mem-edges_of_target implement a b k j h = refl
edge_mem-edges_of_target inherit a b k j h = refl
edge_mem-edges_of_target group a b k j h = refl

-- the source of a relation
relate-parts :
    (dep : Identity) (l : ℤ) (n : Node) (kind : RelationKind) (key : Text)
    → ((relate dep l n kind).identity ≡ n.identity)
      × ((relate dep l n kind).references ≡ n.references)
      × ((j : Text)
          → targets j (relate dep l n kind).dependencies
            ≡ (edge_mem key j (edges_of kind key (full dep)) || targets j n.dependencies))
unfolding relate edge_mem edges_of
relate-parts dep l n dependency key = (
  refl,
  refl,
  λ j. ground (
    arith,
    targets-insert_relation j n.dependencies (bare_relation dependency dep l),
    text_eq_refl key,
  ),
)
relate-parts dep l n implement key = (refl, refl, λ j. refl)
relate-parts dep l n inherit key = (refl, refl, λ j. refl)
relate-parts dep l n group key = (refl, refl, λ j. refl)

-- the target of a relation
refer-parts :
    (source : Identity) (l : ℤ) (n : Node) (kind : RelationKind) (there : Text)
    → ((refer source l n kind).identity ≡ n.identity)
      × ((refer source l n kind).dependencies ≡ n.dependencies)
      × ((k : Text)
          → targets k (refer source l n kind).references
            ≡ (edge_mem k there (edges_of kind (full source) there) || targets k n.references))
unfolding refer edge_mem edges_of
refer-parts source l n dependency there = (
  refl,
  refl,
  λ k. ground (
    arith,
    targets-insert_relation k n.references (bare_relation dependency source l),
    text_eq_refl there,
  ),
)
refer-parts source l n implement there = (refl, refl, λ j. refl)
refer-parts source l n inherit there = (refl, refl, λ j. refl)
refer-parts source l n group there = (refl, refl, λ j. refl)

-- the node that AddRelation starts from at the target
abbrev start_node : Repository → Node → Text → Identity → ℤ → RelationKind → Node
start_node r node key dep l kind =
    or_else
      (if text_eq key (full dep) then some (relate dep l node kind) else get r.graph (full dep))
      (new_node dep unknown true)

module _ (r : Repository) (node : Node) (key : Text) (dep : Identity) (l : ℤ) (kind : RelationKind)
    (keyed : IsKeyed r.graph) (found : get r.graph key ≡ some node) where
  start_node-parts :
      (full (start_node r node key dep l kind).identity ≡ full dep)
      × ((j : Text)
          → targets j (start_node r node key dep l kind).dependencies ≡ (
              edge_mem (full dep) j (edges_of kind key (full dep))
              || depends_on j (get r.graph (full dep))))
      × ((k : Text)
          → targets k (start_node r node key dep l kind).references
            ≡ refers_to k (get r.graph (full dep)))
  unfolding targets
  start_node-parts = elim (Bool-cases (text_eq key (full dep))) [
    | inl self ↦
        let same : key ≡ full dep = (text_eq_iff key (full dep)).0 self in
        let (ident, refs, deps) = relate-parts dep l node kind (full dep) in
        (
          ground (arith, keyed key node found, ident),
          λ j. ground (arith, deps j),
          λ k. ground (arith, refs),
        )
    | inr other ↦ elim (Option-cases (get r.graph (full dep))) [
      | inl missing ↦ (
        ground arith,
        λ j. ground (arith, edge_mem-edges_of kind key (full dep) (full dep) j other),
        λ k. ground arith,
      )
      | inr (m, there) ↦ (
        ground (arith, keyed (full dep) m there),
        λ j. ground (arith, edge_mem-edges_of kind key (full dep) (full dep) j other),
        λ k. ground arith,
      )
    ]
  ]

  target_node-parts :
      (full (target_node r node key dep l kind).identity ≡ full dep)
      × ((j : Text)
          → targets j (target_node r node key dep l kind).dependencies ≡ (
              edge_mem (full dep) j (edges_of kind key (full dep))
              || depends_on j (get r.graph (full dep))))
      × ((k : Text)
          → targets k (target_node r node key dep l kind).references ≡ (
              edge_mem k (full dep) (edges_of kind key (full dep))
              || refers_to k (get r.graph (full dep))))
  target_node-parts =
      let start = start_node r node key dep l kind in
      let (ident, deps, refs) = start_node-parts in
      let (ident', deps', refs') = refer-parts node.identity l start kind (full dep) in
      let (ident'', deps'', refs'') =
        typed_node-kept (found_type r dep) (refer node.identity l start kind) in
      (
        cc (ident, ident', ident''),
        λ j. cc (deps j, deps', deps''),
        λ k. cc (refs k, refs' k, refs'', keyed key node found),
      )

module _ (g h : GoMap Node) (key there : Text) (node source target : Node) (kind : RelationKind)
    (keyed : IsKeyed g) (found : get g key ≡ some node)
    (law : (k : Text)
      → get h k
        ≡ (if text_eq there k then some target else if text_eq key k then some source else get g k))
    (t_ident : full target.identity ≡ there)
    (t_deps : (j : Text)
      → targets j target.dependencies
        ≡ (edge_mem there j (edges_of kind key there) || depends_on j (get g there)))
    (t_refs : (k : Text)
      → targets k target.references
        ≡ (edge_mem k there (edges_of kind key there) || refers_to k (get g there)))
    (s_ident : source.identity ≡ node.identity)
    (s_deps : (j : Text)
      → targets j source.dependencies
        ≡ (edge_mem key j (edges_of kind key there) || targets j node.dependencies))
    (s_refs : source.references ≡ node.references) where
  two_writes-IsKeyed : IsKeyed h
  two_writes-IsKeyed k n e = ground (
    arith,
    law k,
    t_ident,
    s_ident,
    keyed key node found,
    keyed k n,
    text_eq_iff there k,
    text_eq_iff key k,
  )

  two_writes-deps :
      (k j : Text)
      → depends_on j (get h k) ≡ (edge_mem k j (edges_of kind key there) || depends_on j (get g k))
  two_writes-deps k j = ground (
    arith,
    law k,
    t_deps j,
    s_deps j,
    edge_mem-edges_of kind key there k j,
    text_eq_iff there k,
    text_eq_iff key k,
  )

  two_writes-refs :
      (k j : Text)
      → refers_to k (get h j) ≡ (edge_mem k j (edges_of kind key there) || refers_to k (get g j))
  two_writes-refs k j = ground (
    arith,
    law j,
    t_refs k,
    s_refs,
    edge_mem-edges_of_target kind key there k j,
    text_eq_iff there j,
    text_eq_iff key j,
  )

  two_writes-Adds : Adds g h (edges_of kind key there)
  two_writes-Adds = record {
    keyed = two_writes-IsKeyed;
    deps = two_writes-deps;
    refs = two_writes-refs;
  }

-- In a graph whose nodes all stand under their own printed identity, AddRelation, called with one
-- kind, does this where it does not panic: for a dependency it adds one edge, from the key to the
-- target, to the dependencies at the source and to the references at the target; for the other
-- kinds it adds none. No other edge is added or lost, and the nodes still stand under their
-- identities.
pub add_relation-Adds :
    (r : Repository) (key : Text) (dep : Identity) (fl : FileLine) (kind : RelationKind)
    {r' : Repository}
    → IsKeyed r.graph
    → add_relation r key dep fl (kind ∷ []) ≡ ok r'
    → Adds r.graph r'.graph (edges_of kind key (full dep))
add_relation-Adds r key dep fl kind {r'} keyed h =
    let (node, found, _, law) = get-add_relation r key dep fl kind h in
    let l = cal_offset (file_line r node) fl in
    let (t_ident, t_deps, t_refs) = target_node-parts r node key dep l kind keyed found in
    let (s_ident, s_refs, s_deps) = relate-parts dep l node kind key in
    two_writes-Adds r.graph r'.graph key (full dep) node (relate dep l node kind)
      (target_node r node key dep l kind) kind keyed found law t_ident t_deps t_refs s_ident s_deps
      s_refs

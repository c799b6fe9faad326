-- ===== src/Uniast/Graph/Total.antt =====
-- SetNode and AddRelation succeed and leave the entities alone, where the node's entity and the
-- relation's source are there.
use abcoder.Base.{
  ◌≡◌, refl, ◌∙◌, Bool, true, false, List, [], ◌∷◌, Option, none, some, arith, Option-cases, inl,
  inr,
}
use abcoder.Base.Text.{Text, text_eq_refl, All}
use abcoder.Base.Result.{Result, ok, deref, ◌>>=◌, each}
use abcoder.Base.GoMap.{GoMap, made, entries, assign, get, get-put, or_else, IsMade}
use abcoder.Uniast.Identity.{Identity, full}
use abcoder.Uniast.Language.{NodeType, unknown, func, type, var}
use abcoder.Uniast.Model.{
  FileLine, Dependency, Receiver, RelationKind, dependency, Node, Repository,
}
use abcoder.Uniast.Zero.{new_node}
use abcoder.Uniast.Repository.{get_module, get_package, get_function, get_type, get_var}
use abcoder.Uniast.Repository.Total.{put-IsMade}
use abcoder.Uniast.Node.{Entity, lookup_entity, file_line}
use abcoder.Uniast.Graph.{
  place_entity, settled_node, set_node, cal_offset, relate_all, refer_all, found_type, typed_node,
  add_relation, add_dependencies, add_identities, add_receiver, add_var_type,
}

-- The entity of this type is found under the identity.
abbrev pub Resolves : Repository → NodeType → Identity → Type 0
Resolves r t id = (e : Entity) × (lookup_entity r t id ≡ some e)

abbrev pub has_key : Text → GoMap Node → Bool
has_key k g = elim (get g k) [ some n ↦ true | none ↦ false ]

module _ (R : Repository) where
  -- the entities are those of R, and there is a graph
  pub record IsOn (r : Repository) : Type 0 where
    pub same : r.modules ≡ R.modules
    pub graph_made : IsMade r.graph

  pub record IsAt (key : Text) (r : Repository) : Type 0 where
    pub on : IsOn r
    pub present : has_key key r.graph ≡ true

  abbrev pub Keeps {ℓ} : (Repository → Type ℓ) → (Repository → Result Repository) → Type ℓ
  Keeps P act = (r : Repository) → P r → (r' : Repository) × (act r ≡ ok r') × P r'

  module _ {P : Repository → Type 0} where
    pub Keeps->>= :
        (act next : Repository → Result Repository)
        → Keeps P act
        → Keeps P next
        → Keeps P (λ r. act r >>= next)
    Keeps->>= act next a b r p =
        let (q, e, pq) = a r p in let (r', e', p') = b q pq in (r', rw e e', p')

    pub Keeps-each {κ} :
        {A : Type κ} (body : Repository → A → Result Repository) (xs : List A)
        → All (λ x. Keeps P (λ r. body r x)) xs
        → Keeps P (each body xs)
    unfolding each
    Keeps-each body [] h r p = (r, refl, p)
    Keeps-each body (x ∷ xs) (hx, hs) r p =
        Keeps->>= (λ q. body q x) (each body xs) hx (Keeps-each body xs hs) r p

  everywhere {ℓ κ} : {A : Type ℓ} {Q : A → Type κ} → ((x : A) → Q x) → (xs : List A) → All Q xs
  everywhere h [] = tt
  everywhere h (x ∷ xs) = (h x, everywhere h xs)

  add_relation-Keeps :
      (key : Text) (dep : Identity) (fl : FileLine) (kinds : List RelationKind)
      → Keeps (IsAt key) (λ r. add_relation r key dep fl kinds)
  unfolding add_relation
  add_relation-Keeps key dep fl kinds r at = elim (Option-cases (get r.graph key)) [
    | inl gone ↦ absurd (ground (arith, gone, at.present))
    | inr (node, found) ↦
        let l = cal_offset (file_line r node) fl in
        let n₁ = relate_all dep l node kinds in
        let g : GoMap Node = made (assign key n₁ (entries r.graph)) in
        let n₂ = typed_node (found_type r dep) (
          refer_all node.identity l (or_else (get g (full dep)) (new_node dep unknown true))
            kinds) in
        let g' : GoMap Node = made (assign (full dep) n₂ (entries g)) in
        let e₁ = put-IsMade r.graph key n₁ at.on.graph_made in
        let e₂ = put-IsMade g (full dep) n₂ tt in
        (
          record r { graph = g' },
          rw (found, e₁, e₂),
          record {
            on = record { same = at.on.same; graph_made = tt };
            present = ground (
              arith,
              get-put g (full dep) key n₂ e₂,
              get-put r.graph key key n₁ e₁,
              text_eq_refl key,
            );
          },
        )
  ]

  pub add_dependencies-Keeps :
      (key : Text) (kind : RelationKind) (deps : List Dependency)
      → Keeps (IsAt key) (λ r. add_dependencies key kind r deps)
  unfolding add_dependencies
  add_dependencies-Keeps key kind deps =
      Keeps-each _ deps
        (everywhere (λ dep. add_relation-Keeps key dep.identity dep.file_line (kind ∷ [])) deps)

  add_identity-Keeps :
      (key : Text) (kind : RelationKind) (id : Identity)
      → Keeps (IsAt key) (λ r. do
        node ← deref (get r.graph key)
        add_relation r key id (file_line r node) (kind ∷ []))
  add_identity-Keeps key kind id r at = elim (Option-cases (get r.graph key)) [
    | inl gone ↦ absurd (ground (arith, gone, at.present))
    | inr (node, found) ↦
        let (r', e, at') = add_relation-Keeps key id (file_line r node) (kind ∷ []) r at in
        (r', rw found e, at')
  ]

  pub add_identities-Keeps :
      (key : Text) (kind : RelationKind) (ids : List Identity)
      → Keeps (IsAt key) (λ r. add_identities key kind r ids)
  unfolding add_identities
  add_identities-Keeps key kind ids =
      Keeps-each _ ids (everywhere (λ id. add_identity-Keeps key kind id) ids)

  pub add_receiver-Keeps :
      (key : Text) (rcv : Option Receiver) → Keeps (IsAt key) (λ r. add_receiver key r rcv)
  unfolding add_receiver
  add_receiver-Keeps key none r at = (r, refl, at)
  add_receiver-Keeps key (some rcv) r at =
      add_identities-Keeps key dependency (rcv.receiver_type ∷ []) r at

  pub add_var_type-Keeps :
      (key : Text) (fl : FileLine) (id : Option Identity)
      → Keeps (IsAt key) (λ r. add_var_type key fl r id)
  unfolding add_var_type
  add_var_type-Keeps key fl none r at = (r, refl, at)
  add_var_type-Keeps key fl (some id) r at = add_relation-Keeps key id fl (dependency ∷ []) r at

  -- lookups see the modules only
  lookup_entity-same :
      (r : Repository) (t : NodeType) (id : Identity)
      → r.modules ≡ R.modules
      → lookup_entity r t id ≡ lookup_entity R t id
  unfolding lookup_entity get_function get_type get_var get_package get_module
  lookup_entity-same r unknown id same = refl
  lookup_entity-same r func id same = rw same
  lookup_entity-same r type id same = rw same
  lookup_entity-same r var id same = rw same

  place_entity-found :
      (r : Repository) (t : NodeType) (id : Identity) (e : Entity)
      → lookup_entity r t id ≡ some e
      → place_entity r id t ≡ ok r
  unfolding place_entity lookup_entity
  place_entity-found r unknown id e h = refl
  place_entity-found r func id e h = ground arith
  place_entity-found r type id e h = ground arith
  place_entity-found r var id e h = ground arith

  -- after SetNode the node is there
  pub set_node-on :
      (id : Identity) (t : NodeType)
      → Resolves R t id
      → (r : Repository) → IsOn r
      → (r' : Repository) × (set_node r id t ≡ ok r') × IsAt (full id) r'
  unfolding set_node
  set_node-on id t (e, found) r on =
      let node = settled_node (get r.graph (full id)) id t in
      let g : GoMap Node = made (assign (full id) node (entries r.graph)) in
      let e₁ = put-IsMade r.graph (full id) node on.graph_made in
      let q : Repository = record r { graph = g } in
      (
        q,
        rw e₁ (place_entity-found q t id e (lookup_entity-same q t id on.same ∙ found)),
        record {
          on = record { same = on.same; graph_made = tt };
          present =
              ground (arith, get-put r.graph (full id) (full id) node e₁, text_eq_refl (full id));
        },
      )

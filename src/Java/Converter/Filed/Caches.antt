-- ===== src/Java/Converter/Filed/Caches.antt =====
-- ProcessClassDepInfo and putCache of lang/java/ipc/converter.go keep the class caches right.
use abcoder.Base.{
  ◌≡◌, refl, ap, sym, ◌∙◌, inl, inr, Bool, true, false, ◌&&◌, List, [], ◌∷◌, Option, none, some,
  if◌then◌else◌, Option-cases, Bool-cases,
}
use abcoder.Base.Text.{Text, text_eq, text_eq_iff}
use abcoder.Base.Result.{ok-injective, Result, ok, deref, each, ◌>>=◌, bind_ok}
use abcoder.Base.GoMap.{find, assign}
use abcoder.Java.Messages.{
  ClassInfo, DependencyInfo, source_jdk, source_local, source_unknown, source_maven,
  source_external_jar,
}
use abcoder.Java.Converter.{
  Converter, Cache, jdk_cache, local_cache, unknown_cache, third_part_cache, no_cache, cache_of,
  store_class, put_cache, class_point, add_absent, add_if, named, is_third_part, add_jdk,
  add_unknown, add_third_part, process_dependency, process_class,
}
use abcoder.Java.Converter.Filed.{Belongs, IsFor, AllFor, AreFiled}

pub if_ok {ℓ κ} :
    {A : Type ℓ} {X : Type κ} (b : Bool) {m n : Result A} {a : A}
    → (if b then m else n) ≡ ok a
    → (m ≡ ok a → X)
    → (n ≡ ok a → X)
    → X
if_ok true h f g = f h
if_ok false h f g = g h

assign-AllFor :
    (k : Cache) (name : Text) (i : ClassInfo) (m : List (Text × ClassInfo))
    → IsFor k name i
    → AllFor k m
    → AllFor k (assign name i m)
unfolding assign
assign-AllFor k name i [] h all = (h, tt)
assign-AllFor k name i ((j, w) ∷ m) h (first, rest) = elim (Bool-cases (text_eq j name)) [
  | inl e ↦
      coe 1 0 (t. AllFor k (if e t then (name, i) ∷ m else (j, w) ∷ assign name i m)) (h, rest)
  | inr e ↦
      coe 1 0 (t. AllFor k (if e t then (name, i) ∷ m else (j, w) ∷ assign name i m))
        (first, assign-AllFor k name i m h rest)
]

store_class-AreFiled :
    (k : Cache) (i : ClassInfo) (c : Converter)
    → IsFor k i.class_name i
    → AreFiled c
    → AreFiled (store_class k i c)
store_class-AreFiled jdk_cache i c h f = record {
  jdk = assign-AllFor jdk_cache i.class_name i c.jdk_class_cache h f.jdk;
  local = f.local;
  unknown = f.unknown;
  third = f.third;
}
store_class-AreFiled local_cache i c h f = record {
  jdk = f.jdk;
  local = assign-AllFor local_cache i.class_name i c.local_class_cache h f.local;
  unknown = f.unknown;
  third = f.third;
}
store_class-AreFiled unknown_cache i c h f = record {
  jdk = f.jdk;
  local = f.local;
  unknown = assign-AllFor unknown_cache i.class_name i c.unknown_class_cache h f.unknown;
  third = f.third;
}
store_class-AreFiled third_part_cache i c h f = record {
  jdk = f.jdk;
  local = f.local;
  unknown = f.unknown;
  third = assign-AllFor third_part_cache i.class_name i c.third_part_class_cache h f.third;
}
store_class-AreFiled no_cache i c h f = f

-- The switch of putCache sends every source to the cache that is for it.
cache_of-Belongs : (source : Text) → Belongs (cache_of source) source
unfolding cache_of is_third_part
cache_of-Belongs source = elim (Bool-cases (text_eq source source_jdk)) [
  | inl e ↦ rw e ((text_eq_iff source source_jdk).0 e)
  | inr e ↦ elim (Bool-cases (text_eq source source_local)) [
    | inl e' ↦ rw (e, e') ((text_eq_iff source source_local).0 e')
    | inr e' ↦ elim (Bool-cases (text_eq source source_unknown)) [
      | inl u ↦ rw (e, e', u) ((text_eq_iff source source_unknown).0 u)
      | inr u ↦ elim (Bool-cases (text_eq source source_maven)) [
        | inl m ↦ rw (e, e', u, m) (inl ((text_eq_iff source source_maven).0 m))
        | inr m ↦ elim (Bool-cases (text_eq source source_external_jar)) [
          | inl x ↦ rw (e, e', u, m, x) (inr ((text_eq_iff source source_external_jar).0 x))
          | inr x ↦ rw (e, e', u, m, x) tt
        ]
      ]
    ]
  ]
]

module _ (i : ClassInfo) (c : Converter) {c' : Converter} where
  pub put_cache-AreFiled : put_cache i c ≡ ok c' → AreFiled c → AreFiled c'
  unfolding put_cache
  put_cache-AreFiled h f = elim (Option-cases i.source) [
    | inl missing ↦ absurd (cc)
    | inr (s, at) ↦
        let put : ok (store_class (cache_of s.source_type) i c) ≡ ok c' =
          sym (ap (λ o. deref o >>= λ s. ok (store_class (cache_of s.source_type) i c)) at) ∙ h in
        let same : store_class (cache_of s.source_type) i c ≡ c' = cc in
        coe 0 1 (t. AreFiled (same t)) (
          store_class-AreFiled (cache_of s.source_type) i c
            (record {
              own_name = refl;
              origin = s;
              has_source = at;
              cached = cache_of-Belongs s.source_type;
            })
            f)
  ]

add_if-AreFiled :
    (b : Bool) (cache : List (Text × ClassInfo)) (name source : Text) (c : Converter)
    {c' : Converter}
    → add_if b cache name source c ≡ ok c'
    → AreFiled c
    → AreFiled c'
unfolding add_absent
add_if-AreFiled false cache name source c h f = coe 0 1 (t. AreFiled (ok-injective h t)) f
add_if-AreFiled true cache name source c {c'} h f = elim (Option-cases (find name cache)) [
  | inl missing ↦
      put_cache-AreFiled (class_point name source) c
        (sym (
            ap (λ o. elim o [ some i ↦ ok c | none ↦ put_cache (class_point name source) c ])
              missing)
          ∙ h)
        f
  | inr (i, found) ↦
      let same : ok c ≡ ok c' =
        sym
          (ap (λ o. elim o [ some i ↦ ok c | none ↦ put_cache (class_point name source) c ]) found)
        ∙ h in
      coe 0 1 (t. AreFiled (ok-injective same t)) f
]

process_dependency-AreFiled :
    (c : Converter) (o : Option DependencyInfo) {c' : Converter}
    → process_dependency c o ≡ ok c'
    → AreFiled c
    → AreFiled c'
unfolding process_dependency add_jdk add_unknown add_third_part
process_dependency-AreFiled c none h f = absurd (cc)
process_dependency-AreFiled c (some d) h f =
    bind_ok (add_jdk d c) (λ x. add_unknown d x >>= add_third_part d) h
      λ c1 e1 h1. bind_ok (add_unknown d c1) (add_third_part d) h1 λ c2 e2 h2.
        let one =
          add_if-AreFiled (text_eq d.source_type source_jdk && named d) c.jdk_class_cache
            d.class_name source_jdk c e1 f in
        let two =
          add_if-AreFiled (text_eq d.source_type source_unknown && named d) c1.unknown_class_cache
            d.class_name source_unknown c1 e2 one in
        add_if-AreFiled (is_third_part d.source_type && named d) c2.third_part_class_cache
          d.class_name source_maven c2 h2 two

pub each-AreFiled :
    {A : Type 0} (body : Converter → A → Result Converter)
    → ((c : Converter) (a : A) (c' : Converter) → body c a ≡ ok c' → AreFiled c → AreFiled c')
    → (xs : List A) (c : Converter) {c' : Converter} → each body xs c ≡ ok c'
    → AreFiled c
    → AreFiled c'
unfolding each
each-AreFiled body step [] c h f = coe 0 1 (t. AreFiled (ok-injective h t)) f
each-AreFiled body step (a ∷ xs) c h f =
    bind_ok (body c a) (each body xs) h
      λ c1 e1 h1. each-AreFiled body step xs c1 h1 (step c a c1 e1 f)

pub process_class-AreFiled :
    (c : Converter) (x : Text × ClassInfo) (c' : Converter)
    → process_class c x ≡ ok c'
    → AreFiled c
    → AreFiled c'
unfolding process_class
process_class-AreFiled c (name, info) c' h f =
    each-AreFiled process_dependency (λ c d c' h f. process_dependency-AreFiled c d h f)
      info.dependencies c h f

-- ===== src/Java/Converter/Closed.antt =====
-- ProcessClassDepInfo closes the caches of lang/java/ipc/converter.go under the dependencies of the
-- local classes.
use abcoder.Base.{
  ◌≡◌, ◌≢◌, refl, ap, ◌∙◌, inl, inr, Bool, true, false, ◌&&◌, List, [], ◌∷◌, Option, none, some,
  arith, Option-cases,
}
use abcoder.Base.Text.{Text, All, All-map, text_eq, text_eq_iff}
use abcoder.Base.Result.{Result, ok, each, ◌>>=◌}
use abcoder.Base.GoMap.{find, assign, find-assign}
use abcoder.Java.Messages.{ClassInfo, DependencyInfo, source_unknown, source_maven, source_jdk}
use abcoder.Java.Converter.{
  Converter, Cache, jdk_cache, local_cache, unknown_cache, third_part_cache, no_cache, cache_of,
  store_class, put_cache, class_point, add_absent, add_if, is_third_part, named, add_jdk,
  add_unknown, add_third_part, process_dependency, process_class, process_class_dep_info,
}

-- Whatever one converter has cached, so has the other, and their local classes are the same.
pub record IsBelow (c d : Converter) : Type 0 where
  pub same_local : d.local_class_cache ≡ c.local_class_cache
  pub keeps_jdk : (k : Text) → find k c.jdk_class_cache ≢ none → find k d.jdk_class_cache ≢ none
  pub keeps_unknown :
      (k : Text) → find k c.unknown_class_cache ≢ none → find k d.unknown_class_cache ≢ none
  pub keeps_third :
      (k : Text) → find k c.third_part_class_cache ≢ none → find k d.third_part_class_cache ≢ none

IsBelow-refl : (c : Converter) → IsBelow c c
IsBelow-refl c = record {
  same_local = refl;
  keeps_jdk = λ k h. h;
  keeps_unknown = λ k h. h;
  keeps_third = λ k h. h;
}

IsBelow-trans : (c d e : Converter) → IsBelow c d → IsBelow d e → IsBelow c e
IsBelow-trans c d e p q = record {
  same_local = q.same_local ∙ p.same_local;
  keeps_jdk = λ k h. q.keeps_jdk k (p.keeps_jdk k h);
  keeps_unknown = λ k h. q.keeps_unknown k (p.keeps_unknown k h);
  keeps_third = λ k h. q.keeps_third k (p.keeps_third k h);
}

assign-keeps :
    (k j : Text) (i : ClassInfo) (m : List (Text × ClassInfo))
    → find j m ≢ none
    → find j (assign k i m) ≢ none
assign-keeps k j i m h e = ground (arith, find-assign k j i m)

assign-has : (k : Text) (i : ClassInfo) (m : List (Text × ClassInfo)) → find k (assign k i m) ≢ none
assign-has k i m e = ground (arith, find-assign k k i m, text_eq_iff k k)

abbrev cache_in : Cache → Converter → List (Text × ClassInfo)
cache_in jdk_cache c = c.jdk_class_cache
cache_in local_cache c = c.local_class_cache
cache_in unknown_cache c = c.unknown_class_cache
cache_in third_part_cache c = c.third_part_class_cache
cache_in no_cache c = []

store_class-IsBelow :
    (k : Cache) (i : ClassInfo) (c : Converter) → k ≢ local_cache → IsBelow c (store_class k i c)
store_class-IsBelow jdk_cache i c h = record {
  same_local = refl;
  keeps_jdk = λ k. assign-keeps i.class_name k i c.jdk_class_cache;
  keeps_unknown = λ k h. h;
  keeps_third = λ k h. h;
}
store_class-IsBelow local_cache i c h = absurd (h refl)
store_class-IsBelow unknown_cache i c h = record {
  same_local = refl;
  keeps_jdk = λ k h. h;
  keeps_unknown = λ k. assign-keeps i.class_name k i c.unknown_class_cache;
  keeps_third = λ k h. h;
}
store_class-IsBelow third_part_cache i c h = record {
  same_local = refl;
  keeps_jdk = λ k h. h;
  keeps_unknown = λ k h. h;
  keeps_third = λ k. assign-keeps i.class_name k i c.third_part_class_cache;
}
store_class-IsBelow no_cache i c h = IsBelow-refl c

store_class-has :
    (k : Cache) (i : ClassInfo) (c : Converter)
    → k ≢ no_cache
    → find i.class_name (cache_in k (store_class k i c)) ≢ none
store_class-has jdk_cache i c h = assign-has i.class_name i c.jdk_class_cache
store_class-has local_cache i c h = assign-has i.class_name i c.local_class_cache
store_class-has unknown_cache i c h = assign-has i.class_name i c.unknown_class_cache
store_class-has third_part_cache i c h = assign-has i.class_name i c.third_part_class_cache
store_class-has no_cache i c h = absurd (h refl)

module _ (cache : List (Text × ClassInfo)) (name source : Text) (c : Converter) where
  add_absent-found :
      (i : ClassInfo) → find name cache ≡ some i → add_absent cache name source c ≡ ok c
  unfolding add_absent
  add_absent-found i h =
      ap (λ o. elim o [ some i ↦ ok c | none ↦ put_cache (class_point name source) c ]) h

  add_absent-missing :
      find name cache ≡ none
      → add_absent cache name source c
        ≡ ok (store_class (cache_of source) (class_point name source) c)
  unfolding add_absent put_cache
  add_absent-missing h =
      ap (λ o. elim o [ some i ↦ ok c | none ↦ put_cache (class_point name source) c ]) h

add_if-some :
    (b : Bool) (k : Cache) (name source : Text) (c : Converter)
    → cache_of source ≡ k
    → k ≢ local_cache
    → k ≢ no_cache
    → (c' : Converter) × (add_if b (cache_in k c) name source c ≡ ok c')
      × IsBelow c c'
      × (b ≡ true → find name (cache_in k c') ≢ none)
add_if-some false k name source c e l n = (c, refl, IsBelow-refl c, λ h. absurd (cc))
add_if-some true k name source c e l n = elim (Option-cases (find name (cache_in k c))) [
  | inl missing ↦ (
    store_class k (class_point name source) c,
    add_absent-missing (cache_in k c) name source c missing
        ∙ ap (λ j. ok (store_class j (class_point name source) c)) e,
    store_class-IsBelow k (class_point name source) c l,
    λ h. store_class-has k (class_point name source) c n,
  )
  | inr (i, found) ↦
      (c, add_absent-found (cache_in k c) name source c i found, IsBelow-refl c, λ h z. cc)
]

-- What ProcessClassDepInfo promises of one dependency.
pub record IsAnswered (d : DependencyInfo) (c : Converter) : Type 0 where
  pub from_jdk :
      (text_eq d.source_type source_jdk && named d) ≡ true
      → find d.class_name c.jdk_class_cache ≢ none
  pub from_unknown :
      (text_eq d.source_type source_unknown && named d) ≡ true
      → find d.class_name c.unknown_class_cache ≢ none
  pub from_third :
      (is_third_part d.source_type && named d) ≡ true
      → find d.class_name c.third_part_class_cache ≢ none

IsAnswered-IsBelow :
    (d : DependencyInfo) (c e : Converter) → IsAnswered d c → IsBelow c e → IsAnswered d e
IsAnswered-IsBelow d c e a p = record {
  from_jdk = λ h. p.keeps_jdk d.class_name (a.from_jdk h);
  from_unknown = λ h. p.keeps_unknown d.class_name (a.from_unknown h);
  from_third = λ h. p.keeps_third d.class_name (a.from_third h);
}

process_dependency-IsAnswered :
    (c : Converter) (d : DependencyInfo)
    → (c' : Converter) × (process_dependency c (some d) ≡ ok c') × IsBelow c c' × IsAnswered d c'
unfolding process_dependency add_jdk add_unknown add_third_part cache_of text_eq
process_dependency-IsAnswered c d =
    let s = d.source_type in
    let n = d.class_name in
    let (c1, e1, p1, a1) =
      add_if-some (text_eq s source_jdk && named d) jdk_cache n source_jdk c refl (λ h. cc)
        (λ h. cc) in
    let (c2, e2, p2, a2) =
      add_if-some (text_eq s source_unknown && named d) unknown_cache n source_unknown c1 refl
        (λ h. cc) (λ h. cc) in
    let (c3, e3, p3, a3) =
      add_if-some (is_third_part s && named d) third_part_cache n source_maven c2 refl (λ h. cc)
        (λ h. cc) in
    let rest = IsBelow-trans c1 c2 c3 p2 p3 in
    (
      c3,
      ap (λ r. r >>= λ x. add_unknown d x >>= add_third_part d) e1
          ∙ ap (λ r. r >>= add_third_part d) e2
          ∙ e3,
      IsBelow-trans c c1 c3 p1 rest,
      record {
        from_jdk = λ h. rest.keeps_jdk n (a1 h);
        from_unknown = λ h. p3.keeps_unknown n (a2 h);
        from_third = a3;
      },
    )

-- A dependency that is not nil is answered.
abbrev pub IsMet : Option DependencyInfo → Converter → Type 0
IsMet none c = Unit
IsMet (some d) c = IsAnswered d c

process_dependency-IsMet :
    (c : Converter) (o : Option DependencyInfo)
    → o ≢ none
    → (c' : Converter) × (process_dependency c o ≡ ok c') × IsBelow c c' × IsMet o c'
process_dependency-IsMet c none h = absurd (h refl)
process_dependency-IsMet c (some d) h = process_dependency-IsAnswered c d

IsMet-IsBelow : (o : Option DependencyInfo) (c e : Converter) → IsMet o c → IsBelow c e → IsMet o e
IsMet-IsBelow none c e a p = tt
IsMet-IsBelow (some d) c e a p = IsAnswered-IsBelow d c e a p

module _ {A : Type 0} (body : Converter → A → Result Converter) (Q : A → Type 0)
    (P : A → Converter → Type 0)
    (step : (c : Converter) (a : A)
      → Q a
      → (c' : Converter) × (body c a ≡ ok c') × IsBelow c c' × P a c')
    (keeps : (a : A) (c e : Converter) → P a c → IsBelow c e → P a e) where
  each-All :
      (xs : List A) (c : Converter)
      → All Q xs
      → (c' : Converter) × (each body xs c ≡ ok c') × IsBelow c c' × All (λ a. P a c') xs
  unfolding each
  each-All [] c q = (c, refl, IsBelow-refl c, tt)
  each-All (a ∷ xs) c (q, more) =
      let (c1, e1, p1, h1) = step c a q in
      let (c2, e2, p2, h2) = each-All xs c1 more in
      (
        c2,
        ap (λ r. r >>= each body xs) e1 ∙ e2,
        IsBelow-trans c c1 c2 p1 p2,
        (keeps a c1 c2 h1 p2, h2),
      )

-- No dependency of the class is nil.
abbrev pub AreThere : Text × ClassInfo → Type 0
AreThere (name, info) = All (λ o. o ≢ none) info.dependencies

abbrev AreMet : Text × ClassInfo → Converter → Type 0
AreMet (name, info) c = All (λ o. IsMet o c) info.dependencies

process_class-AreMet :
    (c : Converter) (x : Text × ClassInfo)
    → AreThere x
    → (c' : Converter) × (process_class c x ≡ ok c') × IsBelow c c' × AreMet x c'
unfolding process_class
process_class-AreMet c (name, info) there =
    each-All process_dependency (λ o. o ≢ none) IsMet process_dependency-IsMet IsMet-IsBelow
      info.dependencies c there

AreMet-IsBelow : (x : Text × ClassInfo) (c e : Converter) → AreMet x c → IsBelow c e → AreMet x e
AreMet-IsBelow (name, info) c e h p = All-map info.dependencies (λ o a. IsMet-IsBelow o c e a p) h

-- If no dependency of a local class is nil, ProcessClassDepInfo ends without a panic. Then every
-- dependency of a local class that has a name and comes from the JDK, from a Maven or external jar
-- or from an unknown source is in the cache of its source; no cached class is lost, and the local
-- classes are the same.
pub process_class_dep_info-IsAnswered :
    (c : Converter)
    → All AreThere c.local_class_cache
    → (c' : Converter) × (process_class_dep_info c ≡ ok c')
      × IsBelow c c'
      × All (λ x. All (λ o. IsMet o c') x.1.dependencies) c.local_class_cache
unfolding process_class_dep_info
process_class_dep_info-IsAnswered c there =
    each-All process_class AreThere AreMet process_class-AreMet AreMet-IsBelow c.local_class_cache c
      there

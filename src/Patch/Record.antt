-- ===== src/Patch/Record.antt =====
-- What Patch leaves in the patcher, with an error and without one.
use abcoder.Base.{
  ◌≡◌, refl, true, [], ◌∷◌, ◌++◌, Option, none, some, arith, if◌then◌else◌, Bool-cases, inl, inr,
}
use abcoder.Base.Int.{pos, leb_ℤ}
use abcoder.Base.Text.{Text, text_eq, text_eq_iff}
use abcoder.Base.Result.{ok, deref, bind_ok}
use abcoder.Base.GoMap.{GoMap, made, entries, get, put, or_else, get-put}
use abcoder.Uniast.Identity.{Identity, full}
use abcoder.Uniast.Language.{Language, golang}
use abcoder.Uniast.Model.{FileLine, File, Import, Repository}
use abcoder.Uniast.Zero.{new_file}
use abcoder.Uniast.Repository.{get_module, set_module}
use abcoder.Uniast.Files.{module_file}
use abcoder.Patch.Splice.{PatchNode}
use abcoder.Patch.Patcher.{
  Request, Patcher, PatchError, unsupported_language, import_failed, placed, add_patch, ensure_node,
  ensure_module, ensure_file, add_deps, settle_line, writer_language, keep_file, add_imports,
  finish, finish_patch, write_file, patch,
}

get-entries {ℓ} : {V : Type ℓ} (m : GoMap V) (j : Text) → get (made (entries m)) j ≡ get m j
unfolding get
get-entries m j = refl

get-add_patch :
    (p : Patcher) (n : PatchNode) {p' : Patcher}
    → add_patch p n ≡ ok p'
    → (j : Text)
    → or_else (get p'.patches j) [] ≡ (
        if text_eq n.file_line.file j
        then or_else (get p.patches j) [] ++ placed n ∷ []
        else or_else (get p.patches j) [])
unfolding add_patch
get-add_patch p n {p'} h j =
    let path = n.file_line.file in
    let new = or_else (get p.patches path) [] ++ placed n ∷ [] in
    bind_ok (put (made (entries p.patches)) path new) _ h λ ps e out. ground (
      arith,
      get-put (made (entries p.patches)) path j new e,
      get-entries p.patches j,
      text_eq_iff path j,
    )

-- the patch that a request stands for
abbrev pub IsPatchOf : Request → PatchNode → Type 0
IsPatchOf q n =
    (n.identity ≡ q.id) × (n.codes ≡ q.codes) × (leb_ℤ (pos 1) n.file_line.start_offset ≡ true)

placed-IsPatchOf :
    (q : Request) (n : PatchNode) → n.identity ≡ q.id → n.codes ≡ q.codes → IsPatchOf q (placed n)
unfolding placed
placed-IsPatchOf q n h k = (ground arith, ground arith, ground arith)

-- what the outcome says of the patches
abbrev pub Recorded : Patcher → Request → Patcher → Option PatchError → Type 0
Recorded p q p' (some err) = p'.patches ≡ p.patches
Recorded p q p' none =
    (n : PatchNode) × IsPatchOf q n
    × ((j : Text)
        → or_else (get p'.patches j) [] ≡ (
            if text_eq n.file_line.file j
            then or_else (get p.patches j) [] ++ n ∷ []
            else or_else (get p.patches j) []))

-- the end of Patch, by whether an import failed
finish-Recorded :
    (p : Patcher) (q : Request) (p₁ : Patcher) (n : PatchNode) (failed : Option Identity)
    (p' : Patcher) (err : Option PatchError)
    → p₁.patches ≡ p.patches
    → n.identity ≡ q.id
    → n.codes ≡ q.codes
    → finish p₁ n failed ≡ ok (p', err)
    → Recorded p q p' err
unfolding finish
finish-Recorded p q p₁ n (some dep) p' err same h k e =
    let is_err : some (import_failed dep) ≡ err = ground arith in
    rw (← is_err) (ground (arith, same))
finish-Recorded p q p₁ n none p' err same h k e = bind_ok (add_patch p₁ n) _ e λ p'' added out.
    let is_none : none ≡ err = ground arith in
    let path : (placed n).file_line.file ≡ n.file_line.file = unfold placed in ground arith in
    let kept_p : p'' ≡ p' = ground arith in
    rw (← is_none) (
      placed n,
      placed-IsPatchOf q n h k,
      λ j. rw (← kept_p) (rw path (ground (arith, get-add_patch p₁ n added j, same))),
    )

module _ (id_to_import : Identity → Option Import) where
  finish_patch-Recorded :
      (p : Patcher) (q : Request) (r : Repository) (fl : FileLine) (found : Option File)
      (p' : Patcher) (err : Option PatchError)
      → finish_patch id_to_import p q r fl found ≡ ok (p', err)
      → Recorded p q p' err
  unfolding finish_patch
  finish_patch-Recorded p q r fl found p' err h =
      let f = or_else found (new_file q.file) in
      let added = add_imports id_to_import f.imports q.added_deps in
      let stored = keep_file found r q.id.mod_path q.file (record f { imports = added.0 }) in
      finish-Recorded p q (record p { repo = stored.0 })
        (record { identity = q.id; file_line = fl; codes = q.codes; file = stored.1 }) added.1 p'
        err refl refl refl h

  write_file-Recorded :
      (p : Patcher) (q : Request) (l : Language) (r : Repository) (fl : FileLine) (p' : Patcher)
      (err : Option PatchError)
      → write_file id_to_import p q l r fl ≡ ok (p', err)
      → Recorded p q p' err
  unfolding write_file
  write_file-Recorded p q l r fl p' err h =
      elim (Bool-cases (text_eq (writer_language p l) golang)) [
        | inl go ↦
            bind_ok (deref (get_module r q.id.mod_path)) _ (rw go at h)
              λ lib e h'. finish_patch-Recorded p q r fl (module_file lib q.file) p' err h'
        | inr other ↦
            let is_err : some (unsupported_language l) ≡ err = ground arith in
            rw (← is_err) (ground arith)
      ]

  -- Where Patch returns an error, the patches are as before. Where it returns none, one patch with
  -- the identity and the codes of the request, and an offset of at least 1, was appended to the
  -- patches of its file, and the patches of the other files are as before.
  pub patch-Recorded :
      (p : Patcher) (q : Request) (p' : Patcher) (err : Option PatchError)
      → patch id_to_import p q ≡ ok (p', err)
      → Recorded p q p' err
  unfolding patch
  patch-Recorded p q p' err h = bind_ok (ensure_node p.repo q.id q.node_type) _ h λ r e₁ h₁.
      bind_ok (deref (get r.graph (full q.id))) _ h₁ λ node e₂ h₂.
        let node' = record node { dependencies = add_deps node.dependencies q.added_deps } in
        bind_ok (put r.graph (full q.id) node') _ h₂ λ g e₃ h₃.
          let r₁ = ensure_module (record r { graph = g }) q.id.mod_path p.default_language in
          bind_ok (deref (get_module r₁ q.id.mod_path)) _ h₃ λ lib e₄ h₄.
            let r₂ = set_module r₁ q.id.mod_path (ensure_file lib q.file) in
            bind_ok (settle_line r₂ node' q.file) _ h₄
              λ settled e₅ h₅. write_file-Recorded p q lib.language settled.0 settled.1 p' err h₅

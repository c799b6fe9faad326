-- ===== src/Patch/Flush/Written.antt =====
-- What Flush of lang/patch/lib.go writes for a patched file: its bytes, spliced, with the imports.
use abcoder.Base.{
  ◌≡◌, ◌≢◌, refl, ap, sym, ◌∙◌, List, [], ◌∷◌, ◌++◌, Option, none, some, arith, if◌then◌else◌,
  Bool-cases, inl, inr,
}
use abcoder.Base.Text.{Text, All, text_eq, text_eq_iff}
use abcoder.Base.Result.{ok, deref, ◌>>=◌, bind_ok, ok-injective}
use abcoder.Base.GoMap.{find, assign, find-assign, entries}
use abcoder.Base.Path.{path_join}
use abcoder.Uniast.Language.{golang}
use abcoder.Uniast.Model.{File, Module}
use abcoder.Uniast.Repository.{get_module, internal_modules}
use abcoder.Uniast.Files.{module_file}
use abcoder.Patch.Splice.{PatchNode, splice, sort_patches, insert_patch}
use abcoder.Patch.Patcher.{Patcher, writer_language}
use abcoder.Patch.Flush.{
  Disk, FlushError, Outside, Flushed, unless_failed, until_failed, file_of, write_out, original,
  write_imports, with_imports, first_imports, flush_imports, flush_spliced, flush_bytes,
  flush_module, flush_file, copy_files, flush, write_failed, no_writer,
}
use abcoder.Patch.Flush.Frame.{flush_files-Spares, copy_files-Spares, AreCopiedElsewhere}

-- a step that ended with no error
abbrev Done : Disk → Flushed → Type 0
Done d r = r ≡ ok (d, none)

unless_failed-Done :
    (x : Disk × Option FlushError) (next : Disk → Flushed) (d : Disk)
    → Done d (unless_failed x next)
    → (x.1 ≡ none) × Done d (next x.0)
unless_failed-Done (d1, none) next d h = (refl, h)
unless_failed-Done (d1, some e) next d h = absurd (cc)

until_failed-append :
    {A : Type 0} (body : Disk → A → Flushed) (xs ys : List A) (d d' : Disk)
    → Done d' (until_failed body (xs ++ ys) d)
    → (d1 : Disk) × Done d1 (until_failed body xs d) × Done d' (until_failed body ys d1)
unfolding until_failed
until_failed-append body [] ys d d' h = (d, refl, h)
until_failed-append body (x ∷ xs) ys d d' h =
    bind_ok (body d x) (λ r. unless_failed r (until_failed body (xs ++ ys))) h
      λ r e h1.
        let (clean, rest) = unless_failed-Done r (until_failed body (xs ++ ys)) d' h1 in
        let (d1, first, second) = until_failed-append body xs ys r.0 d' rest in
        (
          d1,
          ap (λ m. m >>= λ r. unless_failed r (until_failed body xs)) e
              ∙ ap (λ o. unless_failed (r.0, o) (until_failed body xs)) clean
              ∙ first,
          second,
        )

module _ (w : Outside) (p : Patcher) where
  -- What Flush writes for a file: its bytes before, or those of a new file, spliced, and then with the
  -- imports of the patch that comes first.
  pub record IsPatched (d d' : Disk) (path : Text) (ns : List PatchNode) : Type 0 where
    pub patched_module : Module
    pub bytes : Text
    pub spliced : Text
    pub first : PatchNode
    pub import_file : File
    pub final : Text
    pub had : original w p d path patched_module ≡ some bytes
    pub is_spliced : splice bytes ns ≡ ok spliced
    pub is_first : (rest : List PatchNode) × (sort_patches ns ≡ first ∷ rest)
    pub has_file : file_of p.repo first.file ≡ ok import_file
    pub has_imports : w.patch_imports import_file.imports spliced ≡ some final
    pub is_written : find (path_join p.out_dir path) d' ≡ some final

  write_out-Done :
      (path bytes : Text) (d d' : Disk)
      → Done d' (ok (write_out w p.out_dir path bytes d))
      → find (path_join p.out_dir path) d' ≡ some bytes
  unfolding write_out
  write_out-Done path bytes d d' h =
      let q = path_join p.out_dir path in
      elim (Bool-cases (w.writable q)) [
        | inl can ↦
            let same : assign q bytes d ≡ d' =
              ap (λ x. x.0)
                (sym (
                    ap (λ b. if b then (assign q bytes d, none) else (d, some (write_failed path)))
                      can)
                  ∙ ok-injective h) in
            ap (find q) (sym same)
            ∙ find-assign q q bytes d
            ∙ ap (λ b. if b then some bytes else find q d) ((text_eq_iff q q).1 refl)
        | inr cannot ↦
            let failed : some (write_failed path) ≡ none =
              ap (λ x. x.1)
                (sym (
                    ap (λ b. if b then (assign q bytes d, none) else (d, some (write_failed path)))
                      cannot)
                  ∙ ok-injective h) in
            absurd (cc)
      ]

  module _ (path : Text) where
    write_imports-Done :
        (d d' : Disk) (o : Option Text)
        → Done d' (write_imports w p path d o)
        → (final : Text) × (o ≡ some final) × (find (path_join p.out_dir path) d' ≡ some final)
    write_imports-Done d d' none h = absurd (cc)
    write_imports-Done d d' (some final) h = (final, refl, write_out-Done path final d d' h)

    first_imports-Done :
        (spliced : Text) (n : PatchNode) (d d' : Disk) (o : Option Module)
        → Done d' (first_imports w p path spliced n d o)
        → (f : File) × (file_of p.repo n.file ≡ ok f)
          × (final : Text) × (w.patch_imports f.imports spliced ≡ some final)
          × (find (path_join p.out_dir path) d' ≡ some final)
    first_imports-Done spliced n d d' none h = absurd (cc)
    first_imports-Done spliced n d d' (some lib) h =
        bind_ok (file_of p.repo n.file) (with_imports w p path spliced d) h λ f e h1.
          let (final, imports, is) =
            write_imports-Done d d' (w.patch_imports f.imports spliced) h1 in
          (f, e, final, imports, is)

    flush_spliced-Done :
        (lib : Module) (bytes spliced : Text) (ns ms : List PatchNode) (d0 d d' : Disk)
        → original w p d0 path lib ≡ some bytes
        → splice bytes ns ≡ ok spliced
        → sort_patches ns ≡ ms
        → ms ≢ []
        → Done d' (flush_spliced w p d path ms spliced)
        → IsPatched d0 d' path ns
    unfolding flush_imports
    flush_spliced-Done lib bytes spliced ns [] d0 d d' had made sorted some_patch h =
        absurd (some_patch refl)
    flush_spliced-Done lib bytes spliced ns (n ∷ ms) d0 d d' had made sorted some_patch h =
        let written = write_out w p.out_dir path spliced d in
        let (clean, rest) =
          unless_failed-Done written (flush_imports w p path spliced (n ∷ ms)) d' h in
        let (f, at, final, imports, is) =
          first_imports-Done spliced n written.0 d' (get_module p.repo n.identity.mod_path) rest in
        record {
          patched_module = lib;
          bytes = bytes;
          spliced = spliced;
          first = n;
          import_file = f;
          final = final;
          had = had;
          is_spliced = made;
          is_first = (ms, sorted);
          has_file = at;
          has_imports = imports;
          is_written = is;
        }

    flush_bytes-Done :
        (lib : Module) (ns : List PatchNode) (d0 d d' : Disk) (o : Option Text)
        → original w p d0 path lib ≡ o
        → sort_patches ns ≢ []
        → Done d' (flush_bytes w p d path ns o)
        → IsPatched d0 d' path ns
    flush_bytes-Done lib ns d0 d d' none had some_patch h = absurd (cc)
    flush_bytes-Done lib ns d0 d d' (some bytes) had some_patch h =
        bind_ok (splice bytes ns) (flush_spliced w p d path (sort_patches ns)) h λ spliced made h1.
          flush_spliced-Done lib bytes spliced ns (sort_patches ns) d0 d d' had made refl some_patch
            h1

    -- the bytes that are patched depend on the file only
    original-same :
        (lib : Module) (d0 d : Disk)
        → find (path_join p.repo_dir path) d ≡ find (path_join p.repo_dir path) d0
        → original w p d0 path lib ≡ original w p d path lib
    unfolding original
    original-same lib d0 d same =
        ap
          (λ o. elim o [
            | some bytes ↦ some bytes
            | none ↦ w.create_file (module_file lib path) lib
          ])
          (sym same)

    flush_module-Done :
        (lib : Module) (ns : List PatchNode) (d0 d d' : Disk)
        → find (path_join p.repo_dir path) d ≡ find (path_join p.repo_dir path) d0
        → sort_patches ns ≢ []
        → Done d' (flush_module w p d path ns lib)
        → IsPatched d0 d' path ns
    unfolding flush_module
    flush_module-Done lib ns d0 d d' same some_patch h =
        let run = flush_bytes w p d path ns (original w p d path lib) in
        elim (Bool-cases (text_eq (writer_language p lib.language) golang)) [
          | inl go ↦
              flush_bytes-Done lib ns d0 d d' (original w p d path lib)
                (original-same lib d0 d same) some_patch
                (sym (ap (λ b. if b then run else ok (d, some (no_writer lib.language))) go) ∙ h)
          | inr other ↦
              let failed =
                sym (ap (λ b. if b then run else ok (d, some (no_writer lib.language))) other)
                ∙ h in
              absurd (cc)
        ]

    insert_patch-some : (x : PatchNode) (ys : List PatchNode) → insert_patch x ys ≢ []
    unfolding insert_patch
    insert_patch-some x [] h = cc
    insert_patch-some x (y ∷ ys) h = ground arith

    flush_file-Done :
        (n : PatchNode) (ns : List PatchNode) (d0 d d' : Disk)
        → find (path_join p.repo_dir path) d ≡ find (path_join p.repo_dir path) d0
        → Done d' (flush_file w p d (path, n ∷ ns))
        → IsPatched d0 d' path (n ∷ ns)
    unfolding flush_file sort_patches
    flush_file-Done n ns d0 d d' same h =
        bind_ok (deref (get_module p.repo n.identity.mod_path)) (flush_module w p d path (n ∷ ns)) h
          λ lib e h1.
            flush_module-Done lib (n ∷ ns) d0 d d' same (insert_patch-some n (sort_patches ns)) h1

  IsPatched-same :
      (d d1 d2 : Disk) (path : Text) (ns : List PatchNode)
      → IsPatched d d1 path ns
      → find (path_join p.out_dir path) d2 ≡ find (path_join p.out_dir path) d1
      → IsPatched d d2 path ns
  IsPatched-same d d1 d2 path ns h same = record {
    patched_module = h.patched_module;
    bytes = h.bytes;
    spliced = h.spliced;
    first = h.first;
    import_file = h.import_file;
    final = h.final;
    had = h.had;
    is_spliced = h.is_spliced;
    is_first = h.is_first;
    has_file = h.has_file;
    has_imports = h.has_imports;
    is_written = same ∙ h.is_written;
  }

  -- Where Flush ends with no error, a file that has patches is written as its bytes at the start, or those
  -- of a new file, with the patches spliced in and then the imports patched of the file of the patch that
  -- starts first. The conditions are that no file that comes before it is written where it is read, and
  -- that no later file, patched or copied, is written where it is written.
  pub flush-IsPatched :
      (before after : List (Text × List PatchNode)) (path : Text) (n : PatchNode)
      (ns : List PatchNode) (d d' : Disk)
      → entries p.patches ≡ before ++ (path, n ∷ ns) ∷ after
      → All (λ x. path_join p.out_dir x.0 ≢ path_join p.repo_dir path) before
      → All (λ x. path_join p.out_dir x.0 ≢ path_join p.out_dir path) after
      → All (AreCopiedElsewhere w p (path_join p.out_dir path)) (internal_modules p.repo)
      → flush w p d ≡ ok (d', none)
      → IsPatched d d' path (n ∷ ns)
  unfolding flush until_failed
  flush-IsPatched before after path n ns d d' are unread unwritten copied h =
      let q = path_join p.out_dir path in
      bind_ok (until_failed (flush_file w p) (entries p.patches) d)
        (λ x. unless_failed x (copy_files w p)) h
        λ x e h1.
          let (clean, copies) = unless_failed-Done x (copy_files w p) d' h1 in
          let files : Done x.0
              (until_failed (flush_file w p) (before ++ (path, n ∷ ns) ∷ after) d) =
            ap (λ xs. until_failed (flush_file w p) xs d) (sym are)
            ∙ e
            ∙ ap (λ o. ok (x.0, o)) clean in
          let (d1, first, second) =
            until_failed-append (flush_file w p) before ((path, n ∷ ns) ∷ after) d x.0 files in
          bind_ok (flush_file w p d1 (path, n ∷ ns))
            (λ r. unless_failed r (until_failed (flush_file w p) after)) second
            λ r e2 h2.
              let (clean2, later) =
                unless_failed-Done r (until_failed (flush_file w p) after) x.0 h2 in
              let unread_still =
                flush_files-Spares w p (path_join p.repo_dir path) before unread d d1 none first in
              let patched =
                flush_file-Done path n ns d d1 r.0 unread_still
                  (e2 ∙ ap (λ o. ok (r.0, o)) clean2) in
              let kept_after = flush_files-Spares w p q after unwritten r.0 x.0 none later in
              let kept_copies = copy_files-Spares w p q copied x.0 d' none copies in
              IsPatched-same d r.0 d' path (n ∷ ns) patched (kept_copies ∙ kept_after)

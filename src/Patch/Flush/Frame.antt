-- ===== src/Patch/Flush/Frame.antt =====
-- What Flush of lang/patch/lib.go leaves as it was: every file that is not the output of a patched file
-- or of a file of a module.
use abcoder.Base.{
  ◌≡◌, ◌≢◌, ap, sym, ◌∙◌, inl, inr, Bool, true, false, List, [], ◌∷◌, Option, none, some, arith,
  if◌then◌else◌, Bool-cases,
}
use abcoder.Base.Search.{is_some}
use abcoder.Base.Text.{Text, All, All-map, text_eq, text_eq_iff}
use abcoder.Base.Result.{ok, deref, bind_ok, ok-injective}
use abcoder.Base.GoMap.{find, find-assign, get, entries}
use abcoder.Base.Path.{path_join}
use abcoder.Uniast.Language.{golang}
use abcoder.Uniast.Model.{File, Module}
use abcoder.Uniast.Repository.{get_module, internal_modules}
use abcoder.Patch.Splice.{PatchNode, splice, sort_patches}
use abcoder.Patch.Patcher.{Patcher, writer_language}
use abcoder.Patch.Flush.{
  Disk, FlushError, Outside, Flushed, unless_failed, until_failed, file_of, write_out, original,
  write_imports, flush_imports, with_imports, first_imports, module_not_found, flush_spliced,
  flush_bytes, flush_module, flush_file, imports_failed, create_failed, no_writer, read_failed,
  copy_bytes, copy_file, copy_module, copy_files, flush,
}

-- What one step does to the file `q`, whatever its error.
abbrev pub Spares : Text → (Disk → Flushed) → Type 0
Spares q step = (d d' : Disk) (e : Option FlushError) → step d ≡ ok (d', e) → find q d' ≡ find q d

same_disk :
    (d d' : Disk) (e e' : Option FlushError) → ◌≡◌ {A = Flushed} (ok (d, e)) (ok (d', e')) → d ≡ d'
same_disk d d' e e' h = ap (λ x. x.0) (ok-injective h)

module _ (q : Text) where
  Spares-stop : (e : Option FlushError) → Spares q (λ d. ok (d, e))
  Spares-stop e d d' e' h = ap (find q) (sym (same_disk d d' e e' h))

  Spares-unless_failed :
      (x : Disk × Option FlushError) (next : Disk → Flushed) (d d' : Disk) (e : Option FlushError)
      → find q x.0 ≡ find q d
      → Spares q next
      → unless_failed x next ≡ ok (d', e)
      → find q d' ≡ find q d
  Spares-unless_failed (d1, none) next d d' e same spares h = spares d1 d' e h ∙ same
  Spares-unless_failed (d1, some e1) next d d' e same spares h =
      ap (find q) (sym (same_disk d1 d' (some e1) e h)) ∙ same

  pub until_failed-Spares :
      {A : Type 0} (body : Disk → A → Flushed) (xs : List A)
      → All (λ a. Spares q (λ d. body d a)) xs
      → Spares q (until_failed body xs)
  unfolding until_failed
  until_failed-Spares body [] all d d' e h = ap (find q) (sym (same_disk d d' none e h))
  until_failed-Spares body (a ∷ xs) (one, all) d d' e h =
      bind_ok (body d a) (λ x. unless_failed x (until_failed body xs)) h
        λ x e1 h1.
          Spares-unless_failed x (until_failed body xs) d d' e (one d x.0 x.1 e1)
            (until_failed-Spares body xs all) h1

  if-Spares :
      (b : Bool) (f g : Disk → Flushed)
      → Spares q f
      → Spares q g
      → Spares q (λ d. if b then f d else g d)
  if-Spares true f g p r = p
  if-Spares false f g p r = r

module _ (w : Outside) (p : Patcher) (q : Text) where
  module _ (path : Text) (other : path_join p.out_dir path ≢ q) where
    write_out-other :
        (bytes : Text) (d : Disk) → find q (write_out w p.out_dir path bytes d).0 ≡ find q d
    unfolding write_out
    write_out-other bytes d = ground (
      arith,
      find-assign (path_join p.out_dir path) q bytes d,
      text_eq_iff (path_join p.out_dir path) q,
    )

    write_out-Spares : (bytes : Text) → Spares q (λ d. ok (write_out w p.out_dir path bytes d))
    write_out-Spares bytes d d' e h =
        ap (λ x. find q x.0) (sym (ok-injective h)) ∙ write_out-other bytes d

    write_imports-Spares : (o : Option Text) → Spares q (λ d. write_imports w p path d o)
    write_imports-Spares none = Spares-stop q (some (imports_failed path))
    write_imports-Spares (some bytes) = write_out-Spares bytes

    first_imports-Spares :
        (bytes : Text) (n : PatchNode) (o : Option Module)
        → Spares q (λ d. first_imports w p path bytes n d o)
    first_imports-Spares bytes n none d d' e h =
        Spares-stop q (some (module_not_found n.identity.mod_path)) d d' e h
    first_imports-Spares bytes n (some lib) d d' e h =
        bind_ok (file_of p.repo n.file) (with_imports w p path bytes d) h
          λ f e1 h1. write_imports-Spares (w.patch_imports f.imports bytes) d d' e h1

    flush_imports-Spares :
        (bytes : Text) (ns : List PatchNode) → Spares q (flush_imports w p path bytes ns)
    unfolding flush_imports
    flush_imports-Spares bytes [] = Spares-stop q none
    flush_imports-Spares bytes (n ∷ ns) =
        λ d. first_imports-Spares bytes n (get_module p.repo n.identity.mod_path) d

    flush_spliced-Spares :
        (ns : List PatchNode) (bytes : Text) → Spares q (λ d. flush_spliced w p d path ns bytes)
    flush_spliced-Spares ns bytes d d' e h =
        Spares-unless_failed q (write_out w p.out_dir path bytes d)
          (flush_imports w p path bytes ns) d d' e (write_out-other bytes d)
          (flush_imports-Spares bytes ns) h

    flush_bytes-Spares :
        (ns : List PatchNode) (o : Option Text) → Spares q (λ d. flush_bytes w p d path ns o)
    flush_bytes-Spares ns none d d' e h = Spares-stop q (some (create_failed path)) d d' e h
    flush_bytes-Spares ns (some bytes) d d' e h =
        bind_ok (splice bytes ns) (flush_spliced w p d path (sort_patches ns)) h
          λ s e1 h1. flush_spliced-Spares (sort_patches ns) s d d' e h1

    flush_module-Spares :
        (ns : List PatchNode) (lib : Module) → Spares q (λ d. flush_module w p d path ns lib)
    unfolding flush_module
    flush_module-Spares ns lib d d' e h =
        if-Spares q (text_eq (writer_language p lib.language) golang)
          (λ d. flush_bytes w p d path ns (original w p d path lib))
          (λ d. ok (d, some (no_writer lib.language)))
          (λ d. flush_bytes-Spares ns (original w p d path lib) d)
          (Spares-stop q (some (no_writer lib.language))) d d' e h

    flush_file-Spares : (ns : List PatchNode) → Spares q (λ d. flush_file w p d (path, ns))
    unfolding flush_file
    flush_file-Spares [] d d' e h = Spares-stop q none d d' e h
    flush_file-Spares (n ∷ ns) d d' e h =
        bind_ok (deref (get_module p.repo n.identity.mod_path)) (flush_module w p d path (n ∷ ns)) h
          λ lib e1 h1. flush_module-Spares (n ∷ ns) lib d d' e h1

  copy_bytes-Spares :
      (path : Text) (o : Option Text)
      → path_join p.out_dir path ≢ q
      → Spares q (λ d. copy_bytes w p d path o)
  copy_bytes-Spares path none other = Spares-stop q (some (read_failed path))
  copy_bytes-Spares path (some bytes) other = write_out-Spares path other bytes

  -- A file without patches is not copied to `q`.
  abbrev pub IsCopiedElsewhere : Text × File → Type 0
  IsCopiedElsewhere x = is_some (get p.patches x.1.path) ≡ false → path_join p.out_dir x.1.path ≢ q

  copy_file-Spares : (x : Text × File) → IsCopiedElsewhere x → Spares q (λ d. copy_file w p d x)
  unfolding copy_file
  copy_file-Spares (key, f) other d d' e h = elim (Bool-cases (is_some (get p.patches f.path))) [
    | inl patched ↦ Spares-stop q none d d' e (
        sym (
          ap
            (λ b.
              if b
              then ok (d, none)
              else copy_bytes w p d f.path (find (path_join p.repo_dir f.path) d))
            patched)
        ∙ h)
    | inr copied ↦
        copy_bytes-Spares f.path (find (path_join p.repo_dir f.path) d) (other copied) d d' e (
          sym (
            ap
              (λ b.
                if b
                then ok (d, none)
                else copy_bytes w p d f.path (find (path_join p.repo_dir f.path) d))
              copied)
          ∙ h)
  ]

  abbrev pub AreCopiedElsewhere : Text × Module → Type 0
  AreCopiedElsewhere x = All IsCopiedElsewhere (entries x.1.files)

  copy_module-Spares :
      (x : Text × Module) → AreCopiedElsewhere x → Spares q (λ d. copy_module w p d x)
  unfolding copy_module
  copy_module-Spares (key, lib) other =
      until_failed-Spares q (copy_file w p) (entries lib.files)
        (All-map (entries lib.files) copy_file-Spares other)

  pub copy_files-Spares :
      All AreCopiedElsewhere (internal_modules p.repo) → Spares q (copy_files w p)
  unfolding copy_files
  copy_files-Spares other =
      until_failed-Spares q (copy_module w p) (internal_modules p.repo)
        (All-map (internal_modules p.repo) copy_module-Spares other)

  pub flush_files-Spares :
      (xs : List (Text × List PatchNode))
      → All (λ x. path_join p.out_dir x.0 ≢ q) xs
      → Spares q (until_failed (flush_file w p) xs)
  flush_files-Spares xs other =
      until_failed-Spares q (flush_file w p) xs
        (All-map xs (λ x h. flush_file-Spares x.0 h x.1) other)

  -- Flush, whether it ends with an error or not, leaves every file as it was that is not the output of a
  -- patched file, nor of a file of a module that has no patches.
  pub flush-Spares :
      (d d' : Disk) (e : Option FlushError)
      → All (λ x. path_join p.out_dir x.0 ≢ q) (entries p.patches)
      → All AreCopiedElsewhere (internal_modules p.repo)
      → flush w p d ≡ ok (d', e)
      → find q d' ≡ find q d
  unfolding flush
  flush-Spares d d' e other copied h =
      bind_ok (until_failed (flush_file w p) (entries p.patches) d)
        (λ x. unless_failed x (copy_files w p)) h
        λ x e1 h1.
          Spares-unless_failed q x (copy_files w p) d d' e
            (flush_files-Spares (entries p.patches) other d x.0 x.1 e1) (copy_files-Spares copied)
            h1

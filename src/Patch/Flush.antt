-- ===== src/Patch/Flush.antt =====
-- Flush of lang/patch/lib.go. The disk is a map of the files by their paths. What the Writer gives and
-- which files can be written are parameters; a write that fails leaves the disk as it is. Flush sorts
-- the patches of a file in place, which is left out of its result: it sorts them again.
pub mod Frame
pub mod Written
use abcoder.Base.{Bool, true, false, List, [], ◌∷◌, Option, none, some, if◌then◌else◌}
use abcoder.Base.Search.{is_some}
use abcoder.Base.Text.{Text, text_eq}
use abcoder.Base.Result.{Result, ok, panic, deref, ◌>>=◌}
use abcoder.Base.GoMap.{find, assign, get, entries}
use abcoder.Base.Path.{path_join}
use abcoder.Uniast.Language.{Language, golang}
use abcoder.Uniast.Model.{File, Import, Module, Repository}
use abcoder.Uniast.Repository.{get_module, internal_modules}
use abcoder.Uniast.Files.{module_file}
use abcoder.Patch.Splice.{FileRef, kept, dangling, PatchNode, splice, sort_patches}
use abcoder.Patch.Patcher.{Patcher, writer_language}

abbrev pub Disk : Type 0
Disk = List (Text × Text)

pub data FlushError : Type 0 where
  no_writer : Language → FlushError
  create_failed write_failed imports_failed read_failed : Text → FlushError
  module_not_found : Text → FlushError

-- The Writer, and the disk's answer to a write.
pub record Outside : Type 0 where
  pub create_file : Option File → Module → Option Text
  pub patch_imports : List Import → Text → Option Text
  pub writable : Text → Bool

abbrev pub Flushed : Type 0
Flushed = Result (Disk × Option FlushError)

-- What follows, unless there was an error.
abbrev pub unless_failed : Disk × Option FlushError → (Disk → Flushed) → Flushed
unless_failed (d, none) next = next d
unless_failed (d, some e) next = ok (d, some e)

-- A loop that returns at the first error.
unfoldable pub until_failed {ℓ} : {A : Type ℓ} → (Disk → A → Flushed) → List A → Disk → Flushed
until_failed body [] d = ok (d, none)
until_failed body (a ∷ rest) d = body d a >>= λ x. unless_failed x (until_failed body rest)

-- The file of a patch, through its pointer.
unfoldable pub file_of : Repository → FileRef → Result File
unfolding get_module module_file
file_of r (kept m path) = do lib ← deref (get_module r m); deref (module_file lib path)
file_of r (dangling f) = ok f

module _ (w : Outside) where
  unfoldable pub write_out : Text → Text → Text → Disk → Disk × Option FlushError
  unfolding path_join assign
  write_out out path bytes d =
      if w.writable (path_join out path)
      then (assign (path_join out path) bytes d, none)
      else (d, some (write_failed path))

  -- The bytes that are patched: the file's, or those of a new file.
  unfoldable pub original : Patcher → Disk → Text → Module → Option Text
  unfolding path_join find module_file
  original p d path lib = elim (find (path_join p.repo_dir path) d) [
    | some bytes ↦ some bytes
    | none ↦ w.create_file (module_file lib path) lib
  ]

  abbrev pub write_imports : Patcher → Text → Disk → Option Text → Flushed
  write_imports p path d none = ok (d, some (imports_failed path))
  write_imports p path d (some bytes) = ok (write_out p.out_dir path bytes d)

  abbrev pub with_imports : Patcher → Text → Text → Disk → File → Flushed
  with_imports p path bytes d f = write_imports p path d (w.patch_imports f.imports bytes)

  abbrev pub first_imports : Patcher → Text → Text → PatchNode → Disk → Option Module → Flushed
  first_imports p path bytes n d none = ok (d, some (module_not_found n.identity.mod_path))
  first_imports p path bytes n d (some lib) = file_of p.repo n.file >>= with_imports p path bytes d

  -- The imports of the first patch.
  unfoldable pub flush_imports : Patcher → Text → Text → List PatchNode → Disk → Flushed
  unfolding write_out get_module file_of
  flush_imports p path bytes [] d = ok (d, none)
  flush_imports p path bytes (n ∷ ns) d =
      first_imports p path bytes n d (get_module p.repo n.identity.mod_path)

  abbrev pub flush_spliced : Patcher → Disk → Text → List PatchNode → Text → Flushed
  flush_spliced p d path ns bytes =
      unless_failed (write_out p.out_dir path bytes d) (flush_imports p path bytes ns)

  abbrev pub flush_bytes : Patcher → Disk → Text → List PatchNode → Option Text → Flushed
  flush_bytes p d path ns none = ok (d, some (create_failed path))
  flush_bytes p d path ns (some bytes) =
      splice bytes ns >>= flush_spliced p d path (sort_patches ns)

  unfoldable pub flush_module : Patcher → Disk → Text → List PatchNode → Module → Flushed
  unfolding original flush_imports splice sort_patches writer_language
  flush_module p d path ns lib =
      if text_eq (writer_language p lib.language) golang
      then flush_bytes p d path ns (original p d path lib)
      else ok (d, some (no_writer lib.language))

  -- A round of the first loop.
  unfoldable pub flush_file : Patcher → Disk → Text × List PatchNode → Flushed
  unfolding flush_module get_module
  flush_file p d (path, []) = ok (d, none)
  flush_file p d (path, n ∷ ns) =
      deref (get_module p.repo n.identity.mod_path) >>= flush_module p d path (n ∷ ns)

  abbrev pub copy_bytes : Patcher → Disk → Text → Option Text → Flushed
  copy_bytes p d path none = ok (d, some (read_failed path))
  copy_bytes p d path (some bytes) = ok (write_out p.out_dir path bytes d)

  -- A round of the second loop copies a file that has no patches. The slices of the patches come from
  -- appends, so one that is there is not nil.
  unfoldable pub copy_file : Patcher → Disk → Text × File → Flushed
  unfolding write_out path_join find
  copy_file p d (key, f) =
      if is_some (get p.patches f.path)
      then ok (d, none)
      else copy_bytes p d f.path (find (path_join p.repo_dir f.path) d)

  unfoldable pub copy_module : Patcher → Disk → Text × Module → Flushed
  unfolding until_failed copy_file
  copy_module p d (key, lib) = until_failed (copy_file p) (entries lib.files) d

  unfoldable pub copy_files : Patcher → Disk → Flushed
  unfolding copy_module internal_modules
  copy_files p d = until_failed (copy_module p) (internal_modules p.repo) d

  unfoldable pub flush : Patcher → Disk → Flushed
  unfolding flush_file copy_files until_failed
  flush p d =
      until_failed (flush_file p) (entries p.patches) d >>= λ x. unless_failed x (copy_files p)

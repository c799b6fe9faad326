-- ===== src/Uniast/Files.antt =====
-- The files of modules in lang/uniast/ast.go: Module.GetFile, CreateFile and GetPkgFiles, and
-- Repository.GetFile.
use abcoder.Base.{
  ◌≡◌, ◌≢◌, Bool, true, false, not, ◌&&◌, List, [], ◌∷◌, Option, none, some, arith, if◌then◌else◌,
  Option-cases, inl, inr,
}
use abcoder.Base.Text.{Text, text_eq, text_eq_iff, All}
use abcoder.Base.GoMap.{GoMap, nil_map, made, entries, assign, get, get-put, get-nil, or_else}
use abcoder.Uniast.Model.{File, Module, Repository}
use abcoder.Uniast.Repository.{is_external}
use abcoder.Uniast.Repository.Total.{put-IsMade}

-- Module.GetFile.
unfoldable pub module_file : Module → Text → Option File
module_file m path = get m.files path

-- CreateFile has a value receiver: where Files is nil, the map that it makes is lost.
unfoldable pub create_files : GoMap File → Text → File → GoMap File
create_files nil_map path file = nil_map
create_files (made fs) path file = elim (get (made fs) path) [
  | none ↦ made (assign path file fs)
  | some f ↦ made fs
]

unfoldable pub create_file : Module → Text → File → Module
unfolding create_files
create_file m path file = record m { files = create_files m.files path file }

abbrev of_package : Text → File → Bool
of_package pkg v = not (text_eq v.pkg []) && text_eq v.pkg pkg

unfoldable pub keep_files : Text → List (Text × File) → List File
keep_files pkg [] = []
keep_files pkg ((k, v) ∷ fs) = if of_package pkg v then v ∷ keep_files pkg fs else keep_files pkg fs

unfoldable pub get_pkg_files : Module → Text → List File
unfolding keep_files
get_pkg_files m pkg = keep_files pkg (entries m.files)

-- The file of a module, if it belongs to a package.
unfoldable pub packaged_file : Text → Module → Option File
unfolding module_file
packaged_file fp m = elim (module_file m fp) [
  | none ↦ none
  | some f ↦ if text_eq f.pkg [] then none else some f
]

abbrev internal_file : Text → Module → Option File
internal_file fp m = if is_external m then none else packaged_file fp m

unfoldable pub search_file : Text → List (Text × Module) → Option (File × Module)
unfolding packaged_file
search_file fp [] = none
search_file fp ((k, m) ∷ ms) =
    let rest = search_file fp ms in elim (internal_file fp m) [ some f ↦ some (f, m) | none ↦ rest ]

unfoldable pub get_file : Repository → Text → Option (File × Module)
unfolding search_file
get_file r fp = search_file fp (entries r.modules)

get-create_files :
    (es : List (Text × File)) (path : Text) (file : File) (j : Text)
    → get (create_files (made es) path file) j
      ≡ (if text_eq path j then some (or_else (get (made es) path) file) else get (made es) j)
unfolding create_files
get-create_files es path file j =
    ground
      (arith, get-put (made es) path j file (put-IsMade (made es) path file tt), text_eq_iff path j)

abbrev pub is_nil : GoMap File → Bool
is_nil nil_map = true
is_nil (made fs) = false

get-create_files_nil :
    (path : Text) (file : File) (j : Text) → get (create_files nil_map path file) j ≡ none
unfolding create_files
get-create_files_nil path file j = get-nil {V = File} j

-- What is found after CreateFile, on every module. Where the map of files was nil, nothing is
-- found, not even under the new path. Else the path has the file that it had, or the new one if it
-- had none, and every other path has what it had.
pub module_file-create_file :
    (m : Module) (path : Text) (file : File) (j : Text)
    → module_file (create_file m path file) j ≡ (
        if is_nil m.files
        then none
        else if text_eq path j
        then some (or_else (module_file m path) file)
        else module_file m j)
unfolding module_file create_file
module_file-create_file m path file j = by_map m.files
  where
    by_map :
        (fs : GoMap File)
        → get (create_files fs path file) j ≡ (
            if is_nil fs
            then none
            else if text_eq path j
            then some (or_else (get fs path) file)
            else get fs j)
    by_map nil_map = get-create_files_nil path file j
    by_map (made es) = get-create_files es path file j

-- the file that GetFile looks for
abbrev pub IsSource : Text → File → Module → Type 0
IsSource fp f m = (is_external m ≡ false) × (module_file m fp ≡ some f) × (f.pkg ≢ [])

internal_file-IsSource :
    (fp : Text) (m : Module) (f : File) → internal_file fp m ≡ some f → IsSource fp f m
unfolding packaged_file
internal_file-IsSource fp m f h =
    (ground arith, ground arith, λ e. ground (arith, text_eq_iff f.pkg []))

internal_file-none :
    (fp : Text) (m : Module) → internal_file fp m ≡ none → (f : File) → ¬ IsSource fp f m
unfolding packaged_file
internal_file-none fp m h f (inside, found, packaged) =
    packaged (ground (arith, text_eq_iff f.pkg []))

search_file_sound :
    (fp : Text) (ms : List (Text × Module)) (f : File) (m : Module)
    → search_file fp ms ≡ some (f, m)
    → IsSource fp f m
unfolding search_file
search_file_sound fp [] f m h = absurd (cc)
search_file_sound fp ((k, m') ∷ ms) f m h = elim (Option-cases (internal_file fp m')) [
  | inl skip ↦ search_file_sound fp ms f m (ground arith)
  | inr (f', found) ↦
      let same_f : f' ≡ f = ground arith in
      let same_m : m' ≡ m = ground arith in
      rw (← same_f) (rw (← same_m) (internal_file-IsSource fp m' f' found))
]

search_file_complete :
    (fp : Text) (ms : List (Text × Module))
    → search_file fp ms ≡ none
    → All (λ e. (f : File) → ¬ IsSource fp f e.1) ms
unfolding search_file
search_file_complete fp [] h = tt
search_file_complete fp ((k, m') ∷ ms) h =
    (internal_file-none fp m' (ground arith), search_file_complete fp ms (ground arith))

-- What GetFile returns is a file of an internal module, stored under the path, that belongs to a
-- package.
pub get_file-IsSource :
    (r : Repository) (fp : Text) (f : File) (m : Module)
    → get_file r fp ≡ some (f, m)
    → IsSource fp f m
unfolding get_file
get_file-IsSource r fp f m h = search_file_sound fp (entries r.modules) f m h

-- Where GetFile returns nothing, no module of the repository has such a file.
pub get_file-none :
    (r : Repository) (fp : Text)
    → get_file r fp ≡ none
    → All (λ e. (f : File) → ¬ IsSource fp f e.1) (entries r.modules)
unfolding get_file
get_file-none r fp h = search_file_complete fp (entries r.modules) h

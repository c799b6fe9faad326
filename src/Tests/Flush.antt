-- ===== src/Tests/Flush.antt =====
-- A run of Flush on one patched file and one file to copy.
use abcoder.Base.{◌≡◌, ◌≢◌, refl, sym, true, false, [], ◌∷◌, ◌++◌, none, some}
use abcoder.Base.Text.{codes, text_eq, text_eq_iff}
use abcoder.Base.Result.{ok}
use abcoder.Base.GoMap.{made, find, get}
use abcoder.Base.Int.{◌+ℤ◌, ◌-ℤ◌}
use abcoder.Base.Path.{path_join}
use abcoder.Uniast.Language.{golang}
use abcoder.Uniast.Model.{Repository}
use abcoder.Uniast.Zero.{new_file, new_module, new_repository}
use abcoder.Uniast.Repository.{internal_modules, is_external}
use abcoder.Patch.Splice.{apply_patch}
use abcoder.Patch.Patcher.{Patcher}
use abcoder.Patch.Flush.{Disk, Outside, flush}
use abcoder.Patch.Flush.Frame.{flush-Spares}
use abcoder.Patch.Flush.Written.{IsPatched, flush-IsPatched}
use abcoder.Tests.Data.{mod_path, m_module}
use abcoder.Tests.Patch.{patch_at}

-- A Writer that adds no imports, and a disk that takes every write.
abbrev outside : Outside
outside = record {
  create_file = λ f m. none;
  patch_imports = λ is bytes. some bytes;
  writable = λ path. true;
}

abbrev two_files : Repository
two_files = record (new_repository (codes "r")) {
  modules = made (
      (
        mod_path,
        record m_module {
          files = made ((codes "a", new_file (codes "a")) ∷ (codes "b", new_file (codes "b")) ∷ []);
        },
      )
      ∷ []);
}

abbrev patcher : Patcher
patcher = record {
  repo_dir = codes "in";
  out_dir = codes "out";
  default_language = golang;
  repo = two_files;
  patches = made ((codes "a", patch_at 1 3 (codes "XY") ∷ []) ∷ []);
}

abbrev before : Disk
before = (codes "in/a", codes "abcdef") ∷ (codes "in/b", codes "bb") ∷ []

abbrev after : Disk
after = before ++ (codes "out/a", codes "aXYdef") ∷ (codes "out/b", codes "bb") ∷ []

no_false : true ≢ false
no_false h = cc

outputs_differ : codes "out/b" ≢ codes "out/a"
unfolding text_eq
outputs_differ h = no_false (sym ((text_eq_iff (codes "out/b") (codes "out/a")).1 h))

flush_run : flush outside patcher before ≡ ok (after, none)
unfolding flush text_eq ◌+ℤ◌ ◌-ℤ◌ get new_module apply_patch is_external
flush_run = refl

flush-Spares_example : find (codes "in/a") after ≡ find (codes "in/a") before
unfolding path_join text_eq internal_modules is_external new_module
flush-Spares_example =
    flush-Spares outside patcher (codes "in/a") before after none ((λ h. cc), tt)
      ((((λ c h. cc), ((λ c h. cc), tt)), tt)) flush_run

flush-IsPatched_example :
    IsPatched outside patcher before after (codes "a") (patch_at 1 3 (codes "XY") ∷ [])
unfolding path_join text_eq internal_modules is_external new_module get find
flush-IsPatched_example =
    flush-IsPatched outside patcher [] [] (codes "a") (patch_at 1 3 (codes "XY")) [] before after
      refl tt tt ((((λ c h. no_false c), ((λ c. outputs_differ), tt)), tt)) flush_run

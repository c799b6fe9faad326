-- ===== src/Llm/ReadTools/Watch.antt =====
-- The watch of llm/tool/ast_read.go stores a repository under its name and removes it under the name of
-- its file.
use abcoder.Base.{◌≡◌, ◌≢◌, refl, ap, ◌∙◌, true, [], ◌∷◌, none, some, arith, if◌then◌else◌}
use abcoder.Base.Text.{Text, text_eq_iff, codes}
use abcoder.Base.GoMap.{find, assign, find-assign}
use abcoder.Base.Path.{path_base}
use abcoder.Base.Search.{ends_with}
use abcoder.Uniast.Model.{Repository}
use abcoder.Llm.ReadTools.{
  Repos, written, removed, remove, watch, list_repos, candidates, found, only_candidate,
  get_repo_ast,
}

find-remove : (k j : Text) (rs : Repos) → k ≢ j → find j (remove k rs) ≡ find j rs
unfolding find remove
find-remove k j [] h = refl
find-remove k j ((i, r) ∷ rs) h =
    ground (arith, text_eq_iff i k, text_eq_iff i j, find-remove k j rs h)

get_repo_ast-found :
    (rs : Repos) (name : Text) (r : Repository)
    → find name rs ≡ some r
    → get_repo_ast rs name ≡ found name r
unfolding get_repo_ast
get_repo_ast-found rs name r h =
    ap
      (λ o. elim o [
        | some r ↦ found name r
        | none ↦ only_candidate name rs (candidates name (list_repos rs))
      ])
      h

-- After the JSON file of a repository was written and then removed, the tools still find the repository
-- by its name, if the name is not that of the file.
pub watch-removed :
    (rs : Repos) (file : Text) (r : Repository)
    → ends_with (codes ".json") file ≡ true
    → path_base file ≢ r.name
    → get_repo_ast (watch (removed file) (watch (written file (some r)) rs)) r.name ≡ found r.name r
unfolding watch
watch-removed rs file r json other =
    let stored : find r.name (assign r.name r rs) ≡ some r =
      find-assign r.name r.name r rs
      ∙ ap (λ b. if b then some r else find r.name rs) ((text_eq_iff r.name r.name).1 refl) in
    ap
      (λ b.
        get_repo_ast
          (if b
            then remove (path_base file) (if b then assign r.name r rs else rs)
            else (if b then assign r.name r rs else rs))
          r.name)
      json
    ∙ get_repo_ast-found (remove (path_base file) (assign r.name r rs)) r.name r
        (find-remove (path_base file) r.name (assign r.name r rs) other ∙ stored)

-- ===== src/Tests/Cpp.antt =====
-- Runs of the C++ specification on small inputs.
use abcoder.Base.{ℕ, ◌≡◌, refl, [], ◌∷◌, ◌++◌, Option, none, some, arith, if◌then◌else◌}
use abcoder.Base.Int.{pos, negsuc, ◌-ℤ◌, ◌+ℤ◌}
use abcoder.Base.Text.{Text, codes, text_eq}
use abcoder.Lsp.Symbol.{Token, DocumentSymbol, sk_function}
use abcoder.Cpp.Function.{find_matching_paren, function_parts, start_off}
use abcoder.Cpp.Paren.{Balanced, empty, plain, nested, find_matching_paren-Balanced}
use abcoder.Cpp.Opening.{IsOpen}
use abcoder.Cpp.Parts.{open_of, close_of, AreSorted, function_parts-AreSorted}
use abcoder.Base.GoMap.{assign}
use abcoder.Cpp.Repo.Nearest.{IsCached-empty, assign-IsCached, name_space-plain_space}
use abcoder.Cpp.Origin.{url_name, read_git_origin_org_repo, repo_name}
use abcoder.Cpp.Repo.{
  RepoInfo, CppSpec, IsCached, nearest, dirs_above, local_space, name_space, plain_space,
}

-- the parameters of `f(a(b))`
abbrev inner : Text
inner = codes "a(b)"

inner-Balanced : Balanced inner
inner-Balanced =
    plain b'a' (codes "(b)") (λ e. omega arith) (λ e. omega arith)
      (nested (codes "b") [] (plain b'b' [] (λ e. omega arith) (λ e. omega arith) empty) empty)

find_matching_paren-Balanced_example :
    find_matching_paren (codes "f" ++ b'(' ∷ (inner ++ b')' ∷ codes ";")) (pos 1) ≡ pos 6
find_matching_paren-Balanced_example =
    find_matching_paren-Balanced (codes "f") inner (codes ";") inner-Balanced

abbrev pub token_at : ℕ → ℕ → Text → Text → Token
token_at s e kind text = record {
  location = record {
    uri = [];
    range = record {
      start = record { line = pos 0; character = pos s };
      end = record { line = pos 0; character = pos e };
    };
  };
  token_type = kind;
  modifiers = [];
  text = text;
}

-- `R f(P p)`
abbrev f_symbol : DocumentSymbol
f_symbol = record {
  name = codes "f";
  detail = [];
  kind = sk_function;
  text = codes "R f(P p)";
  tokens =
      token_at 0 1 (codes "class") (codes "R")
      ∷ token_at 2 3 (codes "function") (codes "f")
      ∷ token_at 4 5 (codes "class") (codes "P")
      ∷ [];
  location = record {
    uri = [];
    range = record {
      start = record { line = pos 0; character = pos 0 };
      end = record { line = pos 0; character = pos 8 };
    };
  };
}

abbrev f_name : Token
f_name = token_at 2 3 (codes "function") (codes "f")

f_parts : function_parts f_symbol 1 f_name ≡ (negsuc 0, (pos 2 ∷ [], pos 0 ∷ []))
unfolding function_parts text_eq ◌-ℤ◌ ◌+ℤ◌
f_parts = refl

function_parts-AreSorted_example :
    ((k : ℕ) → open_of f_symbol f_name ≡ pos k → IsOpen f_symbol.text (start_off f_symbol f_name) k)
    × AreSorted
        (start_off f_symbol)
        (open_of f_symbol f_name)
        (close_of f_symbol f_name)
        (start_off f_symbol f_name)
        (function_parts f_symbol 1 f_name).0
        f_symbol.tokens
        (function_parts f_symbol 1 f_name).1.0
        (function_parts f_symbol 1 f_name).1.1
function_parts-AreSorted_example = function_parts-AreSorted f_symbol 1 f_name

-- A file system in which /x/r is the root of the repository r.
abbrev git : Text → Option Text
git d = if text_eq d (codes "/x/r") then some (codes "r") else none

abbrev r_info : RepoInfo
r_info = record { root = codes "/x/r"; name = codes "r" }

abbrev r_spec : CppSpec
r_spec = record {
  repo = codes "/home/p";
  self_name = codes "p";
  sysroots = [];
  repo_mods = (codes "/x/r/a", r_info) ∷ [];
}

r_spec-IsCached : IsCached git r_spec.repo_mods
unfolding assign nearest dirs_above text_eq
r_spec-IsCached = assign-IsCached git [] (codes "/x/r/a") r_info refl (IsCached-empty git)

name_space-plain_space_example :
    ((name_space git r_spec (codes "/x/r/a/b.h")).0 ≡ plain_space git r_spec (codes "/x/r/a/b.h"))
    × IsCached git (name_space git r_spec (codes "/x/r/a/b.h")).1.repo_mods
name_space-plain_space_example =
    name_space-plain_space git r_spec (codes "/x/r/a/b.h") r_spec-IsCached

-- The two forms that the comment of readGitOriginOrgRepo shows.
url_https : url_name (codes "https://h.org/data-arch/feathub.git") ≡ codes "h.org/data-arch/feathub"
unfolding url_name text_eq
url_https = refl

url_ssh : url_name (codes "git@h.org:data/cppservice") ≡ codes "h.org/data/cppservice"
unfolding url_name text_eq
url_ssh = refl

origin_run :
    read_git_origin_org_repo (
      some (
        codes "[core]\nurl = x\n[remote "
        ++ b'"' ∷ codes "origin"
        ++ b'"' ∷ codes "]\n\turl = git@h:a/b.git\n"))
    ≡ codes "h/a/b"
unfolding read_git_origin_org_repo text_eq
origin_run = refl

-- A repository at /x/r whose configuration names no origin.
abbrev bare : Text → Option (Option Text)
bare d = if text_eq d (codes "/x/r") then some (some (codes "[core]\n")) else none

repo_name_run :
    plain_space (repo_name bare) r_spec (codes "/x/r/a/b.h") ≡ (codes "r", codes "a/b.h")
unfolding plain_space repo_name text_eq local_space nearest dirs_above
repo_name_run = refl

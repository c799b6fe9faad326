-- ===== src/Tests/Rust.antt =====
-- A run of the Rust specification on a function with a document comment.
use abcoder.Base.{◌≡◌, refl, [], ◌∷◌, some, drop}
use abcoder.Base.Int.{pos, negsuc, ◌+ℤ◌, ◌-ℤ◌}
use abcoder.Base.Text.{codes, text_eq}
use abcoder.Base.Result.{ok}
use abcoder.Lsp.Symbol.{Token, DocumentSymbol, sk_function}
use abcoder.Lsp.Position.{count_lines, relative_position_with_lines}
use abcoder.Lsp.Pair.{find_pair}
use abcoder.Rust.Spec.{first_not_doc_token, find_keyword}
use abcoder.Rust.Function.{function_symbol, UpTo, function_symbol_documented}
use abcoder.Tests.Cpp.{token_at}

abbrev documentation : Token
documentation = record (token_at 0 3 (codes "comment") (codes "///")) {
  modifiers = codes "documentation" ∷ [];
}

-- `/// fn f(p: P) {}`
abbrev f_symbol : DocumentSymbol
f_symbol = record {
  name = codes "f";
  detail = [];
  kind = sk_function;
  text = codes "/// fn f(p: P) {}";
  tokens =
      documentation
      ∷ token_at 4 6 (codes "keyword") (codes "fn")
      ∷ token_at 7 8 (codes "function") (codes "f")
      ∷ token_at 9 10 (codes "variable") (codes "p")
      ∷ token_at 12 13 (codes "struct") (codes "P")
      ∷ [];
  location = record {
    uri = [];
    range = record {
      start = record { line = pos 0; character = pos 0 };
      end = record { line = pos 0; character = pos 17 };
    };
  };
}

first : first_not_doc_token f_symbol.tokens ≡ some 1
unfolding first_not_doc_token text_eq
first = refl

missing : find_keyword (codes "where") (drop 1 f_symbol.tokens) ≡ negsuc 0
unfolding find_keyword text_eq
missing = refl

-- Neither the parameter nor its type is found.
f_run : function_symbol f_symbol ≡ ok ([], [], [])
unfolding function_symbol ◌+ℤ◌ ◌-ℤ◌ text_eq find_pair relative_position_with_lines count_lines
f_run = refl

function_symbol_documented_example : UpTo (pos 0) [] × UpTo (pos 0) [] × UpTo (pos 0) []
function_symbol_documented_example =
    function_symbol_documented f_symbol 0 [] [] [] first missing f_run

-- ===== src/Uniast/Zero.antt =====
-- The zero values of the Go structs, and the constructors New* of lang/uniast/ast.go.
use abcoder.Base.{suc, Bool, false, [], Option, none, some, take, drop}
use abcoder.Base.Int.{ℤ, pos}
use abcoder.Base.Text.{Text, codes}
use abcoder.Base.Slices.{index_byte}
use abcoder.Base.GoMap.{nil_map, made}
use abcoder.Uniast.Identity.{Identity}
use abcoder.Uniast.Language.{Language, NodeType}
use abcoder.Uniast.Model.{
  FileLine, Dependency, Function, TypeDecl, Var, Import, File, Package, Module, Repository, Node,
  Relation, RelationKind,
}

abbrev pub zero_file_line : FileLine
zero_file_line = record { file = []; line = pos 0; start_offset = pos 0; end_offset = pos 0 }

-- `&Function{Identity: id}`.
abbrev pub bare_function : Identity → Function
bare_function id = record {
  exported = false;
  is_method = false;
  is_interface_method = false;
  identity = id;
  file_line = zero_file_line;
  content = [];
  signature = [];
  receiver = none;
  params = [];
  results = [];
  function_calls = [];
  method_calls = [];
  types = [];
  global_vars = [];
  compress_data = none;
  extra = none;
}

-- `&Type{Identity: id}`.
abbrev pub bare_type : Identity → TypeDecl
bare_type id = record {
  exported = false;
  type_kind = [];
  identity = id;
  file_line = zero_file_line;
  content = [];
  sub_struct = [];
  inline_struct = [];
  methods = nil_map;
  implements = [];
  compress_data = none;
  extra = none;
}

-- `&Var{Identity: id}`.
abbrev pub bare_var : Identity → Var
bare_var id = record {
  is_exported = false;
  is_const = false;
  is_pointer = false;
  identity = id;
  file_line = zero_file_line;
  var_type = none;
  content = [];
  dependencies = [];
  groups = [];
  compress_data = none;
  extra = none;
}

abbrev pub new_dependency : Identity → FileLine → Dependency
new_dependency id fl = record { identity = id; file_line = fl; extra = none }

abbrev pub new_import : Option Text → Text → Import
new_import a p = record { alias = a; path = p }

abbrev pub new_file : Text → File
new_file p = record { path = p; imports = []; pkg = [] }

abbrev pub new_package : Text → Package
new_package p = record {
  is_main = false;
  is_test = false;
  pkg_path = p;
  functions = made [];
  types = made [];
  vars = made [];
  compress_data = none;
}

-- The name before the first '@', and what stands between it and the next '@' as the version.
abbrev before_at : Text → Text
before_at s = elim (index_byte b'@' s) [ some i ↦ take i s | none ↦ s ]

abbrev pub version_of : Text → Text
version_of s = elim (index_byte b'@' s) [ some i ↦ before_at (drop (suc i) s) | none ↦ [] ]

unfoldable pub new_module : Text → Text → Language → Module
new_module n d l = record {
  language = l;
  version = version_of n;
  name = before_at n;
  dir = d;
  packages = made [];
  dependencies = made [];
  files = made [];
  compress_data = none;
}

abbrev pub version : Text
version = codes "v0.1.5"

abbrev pub new_repository : Text → Repository
new_repository n = record {
  name = n;
  ast_version = version;
  tool_version = [];
  path = n;
  modules = made [];
  graph = made [];
}

-- NewNode, with a repository or with nil.
abbrev pub new_node : Identity → NodeType → Bool → Node
new_node id t has_repo = record {
  identity = id;
  node_type = t;
  dependencies = [];
  references = [];
  implements = [];
  inherits = [];
  groups = [];
  attached = has_repo;
}

-- `Relation{Identity: id, Kind: k, Line: line}`.
abbrev pub bare_relation : RelationKind → Identity → ℤ → Relation
bare_relation k id l = record { kind = k; identity = id; line = l; desc = none; codes = none }

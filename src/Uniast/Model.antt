-- ===== src/Uniast/Model.antt =====
-- The data of lang/uniast: repositories, modules, packages, files, entities, nodes and relations.
-- A pointer that may be nil is an Option; a node's pointer Repo is the flag `attached`, since the
-- model has one repository. Module.LoadErrors is left out: its type is not the repository's, and
-- nothing that is modelled reads it.
use abcoder.Base.{Bool, Option, List}
use abcoder.Base.Int.{ℤ}
use abcoder.Base.Text.{Text}
use abcoder.Base.GoMap.{GoMap}
use abcoder.Uniast.Identity.{Identity}
use abcoder.Uniast.Language.{Language, NodeType}

-- What `any` holds in ExtraInfo: the values of JSON.
mutual
  pub data Value : Type 0 where
    null : Value
    bool : Bool → Value
    num : Text → Value
    str : Text → Value
    arr : Values → Value
    obj : Fields → Value

  pub data Values : Type 0 where
    nil : Values
    cons : Value → Values → Values

  pub data Fields : Type 0 where
    end : Fields
    field : Text → Value → Fields → Fields

pub record ExtraInfo : Type 0 where
  pub values : GoMap Value

pub record FileLine : Type 0 where
  pub file : Text
  pub line : ℤ
  pub start_offset : ℤ
  pub end_offset : ℤ

pub record Dependency : Type 0 where
  pub identity : Identity
  pub file_line : FileLine
  pub extra : Option ExtraInfo

pub record Receiver : Type 0 where
  pub is_pointer : Bool
  pub receiver_type : Identity

pub record Function : Type 0 where
  pub exported : Bool
  pub is_method : Bool
  pub is_interface_method : Bool
  pub identity : Identity
  pub file_line : FileLine
  pub content : Text
  pub signature : Text
  pub receiver : Option Receiver
  pub params : List Dependency
  pub results : List Dependency
  pub function_calls : List Dependency
  pub method_calls : List Dependency
  pub types : List Dependency
  pub global_vars : List Dependency
  pub compress_data : Option Text
  pub extra : Option ExtraInfo

-- The Go type Type.
pub record TypeDecl : Type 0 where
  pub exported : Bool
  pub type_kind : Text
  pub identity : Identity
  pub file_line : FileLine
  pub content : Text
  pub sub_struct : List Dependency
  pub inline_struct : List Dependency
  pub methods : GoMap Identity
  pub implements : List Identity
  pub compress_data : Option Text
  pub extra : Option ExtraInfo

pub record Var : Type 0 where
  pub is_exported : Bool
  pub is_const : Bool
  pub is_pointer : Bool
  pub identity : Identity
  pub file_line : FileLine
  pub var_type : Option Identity
  pub content : Text
  pub dependencies : List Dependency
  pub groups : List Identity
  pub compress_data : Option Text
  pub extra : Option ExtraInfo

pub record Import : Type 0 where
  pub alias : Option Text
  pub path : Text

pub record File : Type 0 where
  pub path : Text
  pub imports : List Import
  pub pkg : Text

pub record Package : Type 0 where
  pub is_main : Bool
  pub is_test : Bool
  pub pkg_path : Text
  pub functions : GoMap Function
  pub types : GoMap TypeDecl
  pub vars : GoMap Var
  pub compress_data : Option Text

pub record Module : Type 0 where
  pub language : Language
  pub version : Text
  pub name : Text
  pub dir : Text
  pub packages : GoMap Package
  pub dependencies : GoMap Text
  pub files : GoMap File
  pub compress_data : Option Text

pub data RelationKind : Type 0 where
  dependency implement inherit group : RelationKind

pub record Relation : Type 0 where
  pub kind : RelationKind
  pub identity : Identity
  pub line : ℤ
  pub desc : Option Text
  pub codes : Option Text

pub record Node : Type 0 where
  pub identity : Identity
  pub node_type : NodeType
  pub dependencies : List Relation
  pub references : List Relation
  pub implements : List Relation
  pub inherits : List Relation
  pub groups : List Relation
  pub attached : Bool

pub record Repository : Type 0 where
  pub name : Text
  pub ast_version : Text
  pub tool_version : Text
  pub path : Text
  pub modules : GoMap Module
  pub graph : GoMap Node

-- ===== src/Java/Messages.antt =====
-- The messages of lang/java/pb/messages.go. The enumerations are the strings that JSON carries, and the
-- numbers are only carried, so they are integers. An element of a slice of pointers may be nil.
use abcoder.Base.{Bool, List, Option, none, some, if◌then◌else◌}
use abcoder.Base.Int.{ℤ}
use abcoder.Base.Text.{Text, codes, text_eq}
use abcoder.Base.GoMap.{GoMap}

pub record AnalyzerConfig : Type 0 where
  pub resolve_maven_dependencies : Bool
  pub m2_repository_path : Text
  pub extra_jar_paths : List Text
  pub include_external_classes : Bool
  pub extra_config : GoMap Text

pub record AnalyzeRequest : Type 0 where
  pub request_id : Text
  pub repo_path : Text
  pub config : Option AnalyzerConfig

pub record StopRequest : Type 0 where
  pub request_id : Text

pub record Heartbeat : Type 0 where
  pub timestamp : ℤ

pub record ProgressUpdate : Type 0 where
  pub percentage : ℤ
  pub phase : Text
  pub message : Text
  pub processed_files : ℤ
  pub total_files : ℤ

pub record FileInfo : Type 0 where
  pub file_path : Text
  pub absolute_path : Text
  pub class_names : List Text
  pub file_size : ℤ
  pub line_count : ℤ

pub record SourceInfo : Type 0 where
  pub source_type : Text
  pub maven_coordinate : Text
  pub jar_path : Text
  pub depth : Text

pub record DependencyInfo : Type 0 where
  pub class_name : Text
  pub source_type : Text
  pub depth : Text
  pub maven_coordinate : Text
  pub kind : Text

pub record SymbolText : Type 0 where
  pub fqcn : Text
  pub raw_text : Text
  pub start_line : ℤ
  pub start_column : ℤ
  pub end_line : ℤ
  pub end_column : ℤ

pub record FieldDetail : Type 0 where
  pub name : Text
  pub type_fqcn : Text
  pub type_raw_text : Text
  pub raw_text : Text
  pub start_line : ℤ
  pub start_column : ℤ
  pub end_line : ℤ
  pub end_column : ℤ

pub record ReturnTypeDetail : Type 0 where
  pub type_fqcn : Text
  pub type_raw_text : Text
  pub start_line : ℤ
  pub start_column : ℤ
  pub end_line : ℤ
  pub end_column : ℤ

pub record ParameterDetail : Type 0 where
  pub name : Text
  pub type_fqcn : Text
  pub type_raw_text : Text
  pub raw_text : Text
  pub start_line : ℤ
  pub start_column : ℤ
  pub end_line : ℤ
  pub end_column : ℤ

pub record MethodCallInfo : Type 0 where
  pub caller_class : Text
  pub caller_method : Text
  pub callee_class : Text
  pub callee_method : Text
  pub argument_types : List Text
  pub return_type : Text
  pub resolved : Bool
  pub raw_text : Text
  pub file_path : Text
  pub line : ℤ
  pub column : ℤ
  pub end_line : ℤ
  pub end_column : ℤ

pub record MethodDetail : Type 0 where
  pub descriptor : Text
  pub raw_text : Text
  pub start_line : ℤ
  pub start_column : ℤ
  pub end_line : ℤ
  pub end_column : ℤ
  pub return_type : Option ReturnTypeDetail
  pub parameters : List (Option ParameterDetail)
  pub method_calls : List (Option MethodCallInfo)

pub record ClassInfo : Type 0 where
  pub class_name : Text
  pub package_name : Text
  pub file_path : Text
  pub class_type : Text
  pub source : Option SourceInfo
  pub raw_text : Text
  pub imports : List Text
  pub extends_types : List Text
  pub implements_types : List Text
  pub extends_details : List (Option SymbolText)
  pub implements_details : List (Option SymbolText)
  pub fields : List (Option FieldDetail)
  pub methods : List (Option MethodDetail)
  pub dependencies : List (Option DependencyInfo)
  pub start_line : ℤ
  pub end_line : ℤ
  pub start_column : ℤ
  pub end_column : ℤ
  pub content : Text

pub record Summary : Type 0 where
  pub total_time_ms : ℤ
  pub local_class_count : ℤ
  pub external_class_count : ℤ
  pub file_count : ℤ
  pub method_call_count : ℤ
  pub dependency_count : ℤ
  pub load_time_ms : ℤ
  pub parse_time_ms : ℤ
  pub analyze_time_ms : ℤ
  pub success : Bool
  pub message : Text

pub record ErrorInfo : Type 0 where
  pub code : Text
  pub message : Text
  pub file_path : Text
  pub stack_trace : Text

abbrev pub type_analyze_request : Text
type_analyze_request = codes "analyze_request"

abbrev pub type_analyze_response : Text
type_analyze_response = codes "analyze_response"

abbrev pub type_stop_request : Text
type_stop_request = codes "stop_request"

abbrev pub type_heartbeat : Text
type_heartbeat = codes "heartbeat"

abbrev pub payload_progress : Text
payload_progress = codes "progress"

abbrev pub payload_file_info : Text
payload_file_info = codes "file_info"

abbrev pub payload_class_info : Text
payload_class_info = codes "class_info"

abbrev pub payload_method_call : Text
payload_method_call = codes "method_call"

abbrev pub payload_summary : Text
payload_summary = codes "summary"

abbrev pub payload_error : Text
payload_error = codes "error"

abbrev pub source_unknown : Text
source_unknown = codes "unknown"

abbrev pub source_local : Text
source_local = codes "local"

abbrev pub source_maven : Text
source_maven = codes "maven"

abbrev pub source_external_jar : Text
source_external_jar = codes "external_jar"

abbrev pub source_jdk : Text
source_jdk = codes "jdk"

-- What AnalyzeResponse.Payload holds; `raw_inner` is JSON of a kind that is not known.
pub data InnerPayload : Type 0 where
  progress : ProgressUpdate → InnerPayload
  file_info : FileInfo → InnerPayload
  class_info : ClassInfo → InnerPayload
  method_call : MethodCallInfo → InnerPayload
  summary : Summary → InnerPayload
  error_info : ErrorInfo → InnerPayload
  raw_inner : Text → InnerPayload

pub record AnalyzeResponse : Type 0 where
  pub request_id : Text
  pub payload_type : Text
  pub payload : InnerPayload

-- What Message.Payload holds.
pub data Payload : Type 0 where
  no_payload : Payload
  analyze_request : AnalyzeRequest → Payload
  analyze_response : AnalyzeResponse → Payload
  stop_request : StopRequest → Payload
  heartbeat : Heartbeat → Payload
  raw_payload : Text → Payload

pub record Message : Type 0 where
  pub message_type : Text
  pub request_id : Text
  pub payload : Payload

abbrev pub get_analyze_request : Message → Option AnalyzeRequest
get_analyze_request m = elim m.payload [ analyze_request r ↦ some r | _ ↦ none ]

abbrev pub get_analyze_response : Message → Option AnalyzeResponse
get_analyze_response m = elim m.payload [ analyze_response r ↦ some r | _ ↦ none ]

abbrev pub get_stop_request : Message → Option StopRequest
get_stop_request m = elim m.payload [ stop_request r ↦ some r | _ ↦ none ]

abbrev pub get_heartbeat : Message → Option Heartbeat
get_heartbeat m = elim m.payload [ heartbeat h ↦ some h | _ ↦ none ]

abbrev pub get_progress : AnalyzeResponse → Option ProgressUpdate
get_progress x =
    if text_eq x.payload_type payload_progress
    then elim x.payload [ progress p ↦ some p | _ ↦ none ]
    else none

abbrev pub get_file_info : AnalyzeResponse → Option FileInfo
get_file_info x =
    if text_eq x.payload_type payload_file_info
    then elim x.payload [ file_info p ↦ some p | _ ↦ none ]
    else none

abbrev pub get_class_info : AnalyzeResponse → Option ClassInfo
get_class_info x =
    if text_eq x.payload_type payload_class_info
    then elim x.payload [ class_info p ↦ some p | _ ↦ none ]
    else none

abbrev pub get_method_call : AnalyzeResponse → Option MethodCallInfo
get_method_call x =
    if text_eq x.payload_type payload_method_call
    then elim x.payload [ method_call p ↦ some p | _ ↦ none ]
    else none

abbrev pub get_summary : AnalyzeResponse → Option Summary
get_summary x =
    if text_eq x.payload_type payload_summary
    then elim x.payload [ summary p ↦ some p | _ ↦ none ]
    else none

abbrev pub get_error : AnalyzeResponse → Option ErrorInfo
get_error x =
    if text_eq x.payload_type payload_error
    then elim x.payload [ error_info p ↦ some p | _ ↦ none ]
    else none

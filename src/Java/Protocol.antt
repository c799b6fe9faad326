-- ===== src/Java/Protocol.antt =====
-- The framing of lang/java/ipc/protocol.go: 4 bytes of length, the most significant first, and JSON.
-- The stream is the list of the bytes that are still to come, and ends with them. The JSON library is a
-- parameter: its printer and its readers. Debug output and the reuse of the buffer are left out.
pub mod Bytes
pub mod RoundTrip
use abcoder.Base.{
  ℕ, zero, suc, ◌+◌, ◌-◌, ◌*◌, ◌/◌, ◌%◌, ◌^◌, ◌≡◌, refl, Bool, true, false, List, [], ◌∷◌, ◌++◌,
  Option, none, some, ◌==◌, leb, ltb, if◌then◌else◌, length, take, drop,
}
use abcoder.Base.Text.{Text, text_eq}
use abcoder.Java.Messages.{
  AnalyzeRequest, StopRequest, Heartbeat, ProgressUpdate, FileInfo, ClassInfo, MethodCallInfo,
  Summary, ErrorInfo, InnerPayload, progress, file_info, class_info, method_call, summary,
  error_info, raw_inner, AnalyzeResponse, Payload, no_payload, analyze_request, analyze_response,
  stop_request, heartbeat, raw_payload, Message, get_analyze_response, type_analyze_request,
  type_analyze_response, type_stop_request, type_heartbeat, payload_progress, payload_file_info,
  payload_class_info, payload_method_call, payload_summary, payload_error,
}

abbrev pub max_message_size : ℕ
max_message_size = 64 * 1024 * 1024

-- `end_of_stream` is io.EOF.
pub data ReadError : Type 0 where
  end_of_stream short_length : ReadError
  too_large unexpected_end : ℕ → ReadError
  bad_json : ReadError

pub data Read {ℓ} (A : Type ℓ) : Type ℓ where
  got : A → Read A
  failed : ReadError → Read A

-- The wrapper with its payload still in JSON: type, request id, payload. The same for a response.
pub record Wrapper : Type 0 where
  pub kind : Text
  pub request_id : Text
  pub body : Text

-- The JSON library. `print` and `print_inner` are what its printer writes for a payload.
pub record Json : Type 0 where
  pub marshal : Message → Option Text
  pub print : Payload → Text
  pub print_inner : InnerPayload → Text
  pub read_wrapper : Text → Option Wrapper
  pub read_response : Text → Option Wrapper
  pub read_request : Text → Option AnalyzeRequest
  pub read_stop : Text → Option StopRequest
  pub read_heartbeat : Text → Option Heartbeat
  pub read_progress : Text → Option ProgressUpdate
  pub read_file_info : Text → Option FileInfo
  pub read_class_info : Text → Option ClassInfo
  pub read_method_call : Text → Option MethodCallInfo
  pub read_summary : Text → Option Summary
  pub read_error : Text → Option ErrorInfo

-- binary.BigEndian.PutUint32 of uint32(n), and Uint32.
unfoldable pub put_uint32 : ℕ → Text
put_uint32 n = n / 16777216 % 256 ∷ n / 65536 % 256 ∷ n / 256 % 256 ∷ n % 256 ∷ []

abbrev pub uint32 : ℕ → ℕ → ℕ → ℕ → ℕ
uint32 a b c d = a * 16777216 + b * 65536 + c * 256 + d

abbrev pub read_as {ℓ κ} : {A : Type ℓ} {B : Type κ} → Option A → (A → B) → Read B
read_as none f = failed bad_json
read_as (some a) f = got (f a)

module _ (J : Json) where
  -- The switch on payloadType.
  unfoldable pub decode_inner : Text → Text → Read InnerPayload
  unfolding text_eq
  decode_inner kind body =
      if text_eq kind payload_progress
      then read_as (J.read_progress body) progress
      else if text_eq kind payload_file_info
      then read_as (J.read_file_info body) file_info
      else if text_eq kind payload_class_info
      then read_as (J.read_class_info body) class_info
      else if text_eq kind payload_method_call
      then read_as (J.read_method_call body) method_call
      else if text_eq kind payload_summary
      then read_as (J.read_summary body) summary
      else if text_eq kind payload_error
      then read_as (J.read_error body) error_info
      else got (raw_inner body)

  abbrev pub with_inner : Wrapper → Read InnerPayload → Read Payload
  with_inner w (failed e) = failed e
  with_inner w (got p) =
      got (
        analyze_response (record { request_id = w.request_id; payload_type = w.kind; payload = p }))

  unfoldable pub decode_response : Text → Read Payload
  unfolding decode_inner
  decode_response body = elim (J.read_response body) [
    | none ↦ failed bad_json
    | some w ↦ with_inner w (decode_inner w.kind w.body)
  ]

  -- The switch on the type.
  unfoldable pub decode_payload : Text → Text → Read Payload
  unfolding decode_response text_eq
  decode_payload kind body =
      if text_eq kind type_analyze_response
      then decode_response body
      else if text_eq kind type_analyze_request
      then read_as (J.read_request body) analyze_request
      else if text_eq kind type_stop_request
      then read_as (J.read_stop body) stop_request
      else if text_eq kind type_heartbeat
      then read_as (J.read_heartbeat body) heartbeat
      else got (raw_payload body)

  abbrev pub with_payload : Wrapper → Read Payload → Read Message
  with_payload w (failed e) = failed e
  with_payload w (got p) =
      got (record { message_type = w.kind; request_id = w.request_id; payload = p })

  unfoldable pub decode_wrapper : Wrapper → Read Message
  unfolding decode_payload
  decode_wrapper w =
      if text_eq w.body []
      then with_payload w (got no_payload)
      else with_payload w (decode_payload w.kind w.body)

  unfoldable pub decode : Text → Read Message
  unfolding decode_wrapper
  decode bytes = elim (J.read_wrapper bytes) [ none ↦ failed bad_json | some w ↦ decode_wrapper w ]

  abbrev pub empty_message : Message
  empty_message = record { message_type = []; request_id = []; payload = no_payload }

  -- Behind the length.
  unfoldable pub read_body : ℕ → Text → Read Message × Text
  unfolding decode
  read_body n s =
      if ltb max_message_size n
      then (failed (too_large n), s)
      else if n == 0
      then (got empty_message, s)
      else if ltb (length s) n
      then (failed (unexpected_end n), [])
      else (decode (take n s), drop n s)

  -- ReadMessage, with what is left of the stream.
  unfoldable pub read_message : Text → Read Message × Text
  unfolding read_body
  read_message [] = (failed end_of_stream, [])
  read_message (a ∷ b ∷ c ∷ d ∷ s) = read_body (uint32 a b c d) s
  read_message (a ∷ s) = (failed short_length, [])

  -- WriteMessage: what is appended to the stream, where the printer does not fail.
  unfoldable pub write_message : Message → Option Text
  unfolding put_uint32
  write_message m = elim (J.marshal m) [
    | none ↦ none
    | some bytes ↦ some (put_uint32 (length bytes) ++ bytes)
  ]

  unfoldable pub write_request : AnalyzeRequest → Option Text
  unfolding write_message
  write_request r = write_message (record {
    message_type = type_analyze_request;
    request_id = r.request_id;
    payload = analyze_request r;
  })

  unfoldable pub write_response : AnalyzeResponse → Option Text
  unfolding write_message
  write_response r = write_message (record {
    message_type = type_analyze_response;
    request_id = r.request_id;
    payload = analyze_response r;
  })

  -- The error that the iterator reports: io.EOF is none.
  abbrev pub iterator_error : ReadError → Option ReadError
  iterator_error end_of_stream = none
  iterator_error e = some e

  abbrev pub keep_response : Message → List AnalyzeResponse → List AnalyzeResponse
  keep_response m rest = elim (get_analyze_response m) [ some r ↦ r ∷ rest | none ↦ rest ]

  abbrev pub or_next :
      Read Message
      → (Message → Option (List AnalyzeResponse × Option ReadError))
      → Option (List AnalyzeResponse × Option ReadError)
  or_next (failed e) next = some ([], iterator_error e)
  or_next (got m) next = next m

  abbrev pub with_response :
      Message
      → Option (List AnalyzeResponse × Option ReadError)
      → Option (List AnalyzeResponse × Option ReadError)
  with_response m none = none
  with_response m (some (rest, e)) = some (keep_response m rest, e)

  -- ReadAllMessages, in a number of rounds; `none` says that they were not enough. A round takes 4
  -- bytes at least or is the last, so the stream's length and one are enough.
  unfoldable pub read_rounds : ℕ → Text → Option (List AnalyzeResponse × Option ReadError)
  unfolding read_message
  read_rounds zero s = none
  read_rounds (suc n) s =
      let rest = read_rounds n (read_message s).1 in
      or_next (read_message s).0 λ m. with_response m rest

  unfoldable pub read_all_messages : Text → Option (List AnalyzeResponse × Option ReadError)
  unfolding read_rounds
  read_all_messages s = read_rounds (suc (length s)) s

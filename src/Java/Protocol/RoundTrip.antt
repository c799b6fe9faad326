-- ===== src/Java/Protocol/RoundTrip.antt =====
-- What a client writes is what the iterator of lang/java/ipc/protocol.go yields. What the JSON library
-- reads of a text it printed is a hypothesis on each response, as Go's library keeps no text that is
-- not UTF-8.
use abcoder.Base.{
  ℕ, zero, suc, ◌^◌, ◌≤◌, ◌<◌, ◌≡◌, ap, ◌∙◌, false, List, [], ◌∷◌, ◌++◌, none, some, arith,
  if◌then◌else◌, length, length-append, append_assoc,
}
use abcoder.Base.Text.{Text, text_eq}
use abcoder.Base.Slices.{take-length-append, drop-length-append}
use abcoder.Java.Messages.{
  ProgressUpdate, FileInfo, ClassInfo, MethodCallInfo, Summary, ErrorInfo, InnerPayload, progress,
  file_info, class_info, method_call, summary, error_info, no_payload, AnalyzeResponse,
  analyze_response, Message, type_analyze_response, payload_progress, payload_file_info,
  payload_class_info, payload_method_call, payload_summary, payload_error,
}
use abcoder.Java.Protocol.{
  read_as, bad_json, with_inner, with_payload, Json, Wrapper, got, failed, ReadError, put_uint32,
  read_body, read_message, read_rounds, read_all_messages, with_response, max_message_size, decode,
  decode_wrapper, decode_payload, decode_response, decode_inner, write_response, write_message,
  iterator_error,
}
use abcoder.Java.Protocol.Bytes.{uint32-put_uint32, read_rounds-failed, read_rounds-got}

-- the JSON text of a payload, of a kind
pub data IsInner (J : Json) : InnerPayload → Text → Text → Type 0 where
  inner_progress :
      (p : ProgressUpdate) {s : Text}
      → J.read_progress s ≡ some p
      → IsInner J (progress p) payload_progress s
  inner_file_info :
      (p : FileInfo) {s : Text}
      → J.read_file_info s ≡ some p
      → IsInner J (file_info p) payload_file_info s
  inner_class_info :
      (p : ClassInfo) {s : Text}
      → J.read_class_info s ≡ some p
      → IsInner J (class_info p) payload_class_info s
  inner_method_call :
      (p : MethodCallInfo) {s : Text}
      → J.read_method_call s ≡ some p
      → IsInner J (method_call p) payload_method_call s
  inner_summary :
      (p : Summary) {s : Text} → J.read_summary s ≡ some p → IsInner J (summary p) payload_summary s
  inner_error :
      (p : ErrorInfo) {s : Text}
      → J.read_error s ≡ some p
      → IsInner J (error_info p) payload_error s

abbrev pub response_message : AnalyzeResponse → Message
response_message r = record {
  message_type = type_analyze_response;
  request_id = r.request_id;
  payload = analyze_response r;
}

-- `text` is what the JSON library prints for a response and reads again
pub record IsCarried (J : Json) (r : AnalyzeResponse) (text : Text) : Type 0 where
  pub body : Text
  pub inner : Text
  pub marshals : J.marshal (response_message r) ≡ some text
  pub wrapped :
      J.read_wrapper text
      ≡ some (record { kind = type_analyze_response; request_id = r.request_id; body = body })
  pub has_body : text_eq body [] ≡ false
  pub response :
      J.read_response body
      ≡ some (record { kind = r.payload_type; request_id = r.request_id; body = inner })
  pub is_inner : IsInner J r.payload r.payload_type inner
  pub not_empty : 0 < length text
  pub fits : length text ≤ max_message_size

-- the stream of several responses
pub data AreWritten (J : Json) : List AnalyzeResponse → Text → Type 0 where
  no_more : AreWritten J [] []
  one_more :
      (r : AnalyzeResponse) (rs : List AnalyzeResponse) (text written rest : Text)
      → IsCarried J r text
      → write_response J r ≡ some written
      → AreWritten J rs rest
      → AreWritten J (r ∷ rs) (written ++ rest)

module _ (J : Json) where
  decode_inner-IsInner :
      (p : InnerPayload) (kind s : Text) → IsInner J p kind s → decode_inner J kind s ≡ got p
  unfolding decode_inner text_eq
  decode_inner-IsInner _ _ _ (inner_progress p h) = ap (λ o. read_as o progress) h
  decode_inner-IsInner _ _ _ (inner_file_info p h) = ap (λ o. read_as o file_info) h
  decode_inner-IsInner _ _ _ (inner_class_info p h) = ap (λ o. read_as o class_info) h
  decode_inner-IsInner _ _ _ (inner_method_call p h) = ap (λ o. read_as o method_call) h
  decode_inner-IsInner _ _ _ (inner_summary p h) = ap (λ o. read_as o summary) h
  decode_inner-IsInner _ _ _ (inner_error p h) = ap (λ o. read_as o error_info) h

  decode-some :
      (s : Text) (w : Wrapper) → J.read_wrapper s ≡ some w → decode J s ≡ decode_wrapper J w
  unfolding decode
  decode-some s w h = ap (λ o. elim o [ none ↦ failed bad_json | some w ↦ decode_wrapper J w ]) h

  decode_response-some :
      (s : Text) (w : Wrapper)
      → J.read_response s ≡ some w
      → decode_response J s ≡ with_inner J w (decode_inner J w.kind w.body)
  unfolding decode_response
  decode_response-some s w h =
      ap
        (λ o. elim o [
          | none ↦ failed bad_json
          | some w ↦ with_inner J w (decode_inner J w.kind w.body)
        ])
        h

  decode-IsCarried :
      (r : AnalyzeResponse) (text : Text)
      → IsCarried J r text
      → decode J text ≡ got (response_message r)
  unfolding decode_wrapper decode_payload text_eq
  decode-IsCarried r text c =
      let w : Wrapper = record {
        kind = type_analyze_response;
        request_id = r.request_id;
        body = c.body;
      } in
      let v : Wrapper = record {
        kind = r.payload_type;
        request_id = r.request_id;
        body = c.inner;
      } in
      let parsed =
        decode_response-some c.body v c.response
        ∙ ap (with_inner J v) (decode_inner-IsInner r.payload r.payload_type c.inner c.is_inner) in
      decode-some text w c.wrapped
      ∙ ap
          (λ b.
            if b
            then with_payload J w (got no_payload)
            else with_payload J w (decode_response J c.body))
          c.has_body
      ∙ ap (with_payload J w) parsed

  read_body-all :
      (m : Message) (text rest : Text)
      → 0 < length text
      → length text ≤ max_message_size
      → decode J text ≡ got m
      → read_body J (length text) (text ++ rest) ≡ (got m, rest)
  unfolding read_body
  read_body-all m text rest more fits h =
      ground
        (arith, take-length-append text rest, drop-length-append text rest, length-append text rest)

  read_message-put_uint32 :
      (n : ℕ) (s : Text) → n < 2 ^ 32 → read_message J (put_uint32 n ++ s) ≡ read_body J n s
  unfolding read_message put_uint32
  read_message-put_uint32 n s h = ap (λ k. read_body J k s) (uint32-put_uint32 n h)

  write_response-some :
      (r : AnalyzeResponse) (text : Text)
      → J.marshal (response_message r) ≡ some text
      → write_response J r ≡ some (put_uint32 (length text) ++ text)
  unfolding write_response write_message
  write_response-some r text h =
      ap (λ o. elim o [ none ↦ none | some bytes ↦ some (put_uint32 (length bytes) ++ bytes) ]) h

  -- one response
  read_message-write_response :
      (r : AnalyzeResponse) (text written rest : Text)
      → IsCarried J r text
      → write_response J r ≡ some written
      → read_message J (written ++ rest) ≡ (got (response_message r), rest)
  read_message-write_response r text written rest c h =
      let n = length text in
      let same : written ≡ put_uint32 n ++ text = cc (h, write_response-some r text c.marshals) in
      ap (λ w. read_message J (w ++ rest)) same
      ∙ ap (read_message J) (append_assoc (put_uint32 n) text rest)
      ∙ read_message-put_uint32 n (text ++ rest) (omega (arith, c.fits))
      ∙ read_body-all (response_message r) text rest c.not_empty c.fits (decode-IsCarried r text c)

  written_not_empty :
      (r : AnalyzeResponse) (text written : Text)
      → IsCarried J r text
      → write_response J r ≡ some written
      → 0 < length written
  unfolding put_uint32
  written_not_empty r text written c h =
      let same : written ≡ put_uint32 (length text) ++ text =
        cc (h, write_response-some r text c.marshals) in
      omega (arith, ap length same)

  AreWritten-length :
      (rs : List AnalyzeResponse) (s : Text) → AreWritten J rs s → length rs ≤ length s
  AreWritten-length _ _ no_more = omega arith
  AreWritten-length _ _ (one_more r rs text written rest c h more) = omega (
    arith,
    AreWritten-length rs rest more,
    written_not_empty r text written c h,
    length-append written rest,
  )

  read_rounds-AreWritten :
      (n : ℕ) (rs : List AnalyzeResponse) (s end : Text) (e : ReadError)
      → AreWritten J rs s
      → (read_message J end).0 ≡ failed e
      → length rs < n
      → read_rounds J n (s ++ end) ≡ some (rs, iterator_error J e)
  read_rounds-AreWritten zero rs s end e w ends enough = absurd (omega arith)
  read_rounds-AreWritten (suc n) _ _ end e no_more ends enough = read_rounds-failed J n end e ends
  read_rounds-AreWritten (suc n) _ _ end e (one_more r rs text written rest c h more) ends enough =
      let reads = read_message-write_response r text written (rest ++ end) c h in
      ap (read_rounds J (suc n)) (append_assoc written rest end)
      ∙ read_rounds-got J n (written ++ (rest ++ end)) (response_message r) (ap (λ x. x.0) reads)
      ∙ ap (λ x. with_response J (response_message r) (read_rounds J n x.1)) reads
      ∙ ap (with_response J (response_message r))
          (read_rounds-AreWritten n rs rest end e more ends (omega arith))

  -- The iterator yields what was written: of a stream that holds the texts of several responses, each
  -- one that the JSON library reads back, of 1 to 64 MiB, and then bytes that hold no whole message,
  -- ReadAllMessages yields these responses in their order, and then the error that the rest gives,
  -- which is none where the stream ends behind the last response.
  pub read_all_messages-write_response :
      (rs : List AnalyzeResponse) (s end : Text) (e : ReadError)
      → AreWritten J rs s
      → (read_message J end).0 ≡ failed e
      → read_all_messages J (s ++ end) ≡ some (rs, iterator_error J e)
  unfolding read_all_messages
  read_all_messages-write_response rs s end e w ends =
      read_rounds-AreWritten (suc (length (s ++ end))) rs s end e w ends
        (omega (arith, AreWritten-length rs s w, length-append s end))

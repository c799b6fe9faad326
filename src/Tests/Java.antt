-- ===== src/Tests/Java.antt =====
-- Runs of the Java protocol and converter on small inputs.
use abcoder.Base.{◌≡◌, refl, ◌++◌, List, [], ◌∷◌, Option, none, some, arith}
use abcoder.Base.Int.{pos}
use abcoder.Base.Text.{Text, codes, text_eq, All}
use abcoder.Base.Result.{ok, each, deref, ◌>>=◌}
use abcoder.Uniast.Model.{Repository}
use abcoder.Java.Messages.{
  ErrorInfo, ClassInfo, AnalyzeResponse, error_info, file_info, class_info, payload_error,
  payload_file_info, payload_class_info, type_analyze_response, source_local, source_jdk,
  source_maven,
}
use abcoder.Java.Protocol.{
  Json, ReadError, end_of_stream, failed, read_message, read_all_messages, write_response,
  write_message, put_uint32,
}
use abcoder.Java.Protocol.Bytes.{read_all_messages-total}
use abcoder.Java.Protocol.RoundTrip.{
  IsCarried, AreWritten, no_more, one_more, inner_error, read_all_messages-write_response,
}
use abcoder.Java.Converter.{
  Converter, class_point, new_converter, process_response, process_class_dep_info,
  extract_package_from_path, cache_of, repository,
}
use abcoder.Base.GoMap.{find, assign}
use abcoder.Java.Converter.Files.{number}
use abcoder.Java.Converter.Closed.{IsBelow, IsMet, process_class_dep_info-IsAnswered}
use abcoder.Java.Converter.Filed.{started, responded, AreFiled}
use abcoder.Java.Converter.Filed.Reach.{Reachable-AreFiled}
use abcoder.Java.Converter.State.{IsSourced, add_class, start, run, concrete}
use abcoder.Java.Converter.Refine.{process_responses-run}
use abcoder.Java.Converter.Converted.{IsConverted, repository-process_responses}

abbrev an_error : ErrorInfo
an_error = record { code = codes "1"; message = []; file_path = []; stack_trace = [] }

abbrev error_response : AnalyzeResponse
error_response = record {
  request_id = codes "7";
  payload_type = payload_error;
  payload = error_info an_error;
}

-- A JSON library that knows one response.
abbrev one_json : Json
one_json = record {
  marshal = λ m. some (codes "{}");
  print = λ p. codes "r";
  print_inner = λ p. codes "e";
  read_wrapper =
      λ s. some (record { kind = type_analyze_response; request_id = codes "7"; body = codes "r" });
  read_response =
      λ s. some (record { kind = payload_error; request_id = codes "7"; body = codes "e" });
  read_request = λ s. none;
  read_stop = λ s. none;
  read_heartbeat = λ s. none;
  read_progress = λ s. none;
  read_file_info = λ s. none;
  read_class_info = λ s. none;
  read_method_call = λ s. none;
  read_summary = λ s. none;
  read_error = λ s. some an_error;
}

error-IsCarried : IsCarried one_json error_response (codes "{}")
unfolding text_eq
error-IsCarried = record {
  body = codes "r";
  inner = codes "e";
  marshals = refl;
  wrapped = refl;
  has_body = refl;
  response = refl;
  is_inner = inner_error an_error refl;
  not_empty = omega arith;
  fits = omega arith;
}

abbrev one_frame : Text
one_frame = 0 ∷ 0 ∷ 0 ∷ 2 ∷ codes "{}"

frame_written : write_response one_json error_response ≡ some one_frame
unfolding write_response write_message put_uint32
frame_written = refl

two_frames-AreWritten :
    AreWritten one_json (error_response ∷ error_response ∷ []) (one_frame ++ one_frame ++ [])
two_frames-AreWritten =
    one_more error_response (error_response ∷ []) (codes "{}") one_frame (one_frame ++ [])
      error-IsCarried frame_written
      (one_more error_response [] (codes "{}") one_frame [] error-IsCarried frame_written no_more)

no_frame : (read_message one_json []).0 ≡ failed end_of_stream
unfolding read_message
no_frame = refl

read_all_messages-write_response_example :
    read_all_messages one_json ((one_frame ++ one_frame ++ []) ++ [])
    ≡ some (error_response ∷ error_response ∷ [], none)
read_all_messages-write_response_example =
    read_all_messages-write_response one_json (error_response ∷ error_response ∷ [])
      (one_frame ++ one_frame ++ []) [] end_of_stream two_frames-AreWritten no_frame

read_all_messages-total_example :
    (x : List AnalyzeResponse × Option ReadError) × (read_all_messages one_json
        (one_frame ++ 0 ∷ [])
      ≡ some x)
read_all_messages-total_example = read_all_messages-total one_json (one_frame ++ 0 ∷ [])

abbrev file_response : AnalyzeResponse
file_response = record {
  request_id = codes "7";
  payload_type = payload_file_info;
  payload = file_info (record {
    file_path = codes "src/main/java/a/b/C.java";
    absolute_path = [];
    class_names = [];
    file_size = pos 1;
    line_count = pos 1;
  });
}

abbrev local_class : ClassInfo
local_class = record (class_point (codes "a.b.C") source_local) {
  dependencies =
      some (record {
        class_name = codes "java.util.List";
        source_type = source_jdk;
        depth = [];
        maven_coordinate = [];
        kind = [];
      })
      ∷ some (record {
        class_name = codes "org.x.Y";
        source_type = source_maven;
        depth = [];
        maven_coordinate = [];
        kind = [];
      })
      ∷ [];
}

abbrev class_response : AnalyzeResponse
class_response = record {
  request_id = codes "7";
  payload_type = payload_class_info;
  payload = class_info local_class;
}

abbrev responses : List (Option AnalyzeResponse)
responses = some file_response ∷ some class_response ∷ some file_response ∷ none ∷ []

responses-IsSourced : All IsSourced responses
unfolding text_eq
responses-IsSourced = (tt, ((λ h. cc), (tt, (tt, tt))))

process_responses-run_example :
    each (λ c r. process_response r c) responses (new_converter (codes "/p") (codes "m"))
    ≡ ok (concrete (codes "/p") (codes "m") (run responses start))
process_responses-run_example =
    process_responses-run (codes "/p") (codes "m") responses responses-IsSourced

repository-process_responses_example :
    (r : Repository) × ((each
          (λ c r. process_response r c)
          responses
          (new_converter (codes "/p") (codes "m"))
        >>= λ c. deref (repository c))
      ≡ ok r)
    × IsConverted (codes "/p") (codes "m") responses r
repository-process_responses_example =
    repository-process_responses (codes "/p") (codes "m") responses responses-IsSourced

package_run : extract_package_from_path (codes "src/main/java/a/b/C.java") ≡ codes "a.b"
unfolding extract_package_from_path text_eq
package_run = refl

-- The state with the local class.
abbrev with_class : Converter
with_class = concrete (codes "/p") (codes "m") (add_class (some local_class) start)

class_stored :
    process_response (some class_response) (new_converter (codes "/p") (codes "m")) ≡ ok with_class
unfolding process_response new_converter number find assign text_eq
class_stored = refl

process_class_dep_info-IsAnswered_example :
    (c' : Converter) × (process_class_dep_info with_class ≡ ok c')
    × IsBelow with_class c'
    × All (λ x. All (λ o. IsMet o c') x.1.dependencies) with_class.local_class_cache
unfolding assign cache_of text_eq
process_class_dep_info-IsAnswered_example =
    process_class_dep_info-IsAnswered with_class (((λ h. cc), ((λ h. cc), tt)), tt)

Reachable-AreFiled_example : AreFiled with_class
Reachable-AreFiled_example =
    Reachable-AreFiled (codes "/p") (codes "m") with_class (
      responded (some class_response) (new_converter (codes "/p") (codes "m")) started class_stored)

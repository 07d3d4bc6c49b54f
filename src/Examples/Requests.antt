-- ===== src/Examples/Requests.antt =====
-- The theorems about muduo/net/http at concrete requests.
use cs_note.Common.{
  ◌≡◌, refl, [], ◌∷◌, ◌++◌, Map, arith, some, ok, fault, assertion, codes, decimal, digits_up,
  has_byte, true, false, if◌then◌else◌,
}
use cs_note.Buffer.{Buffer, contents}
use cs_note.Buffer.Contents.{IsValid, Result}
use cs_note.Http.{
  HttpContext, HttpRequest, get, new_context, new_request, expect_request_line, got_all,
  method_string, trim_end, skip_spaces, is_space, parse_request,
}
use cs_note.Http.Termination.{Stops, parse_request-Stops}
use cs_note.Http.Format.{RequestLine, IsWritable, AllFields, parsed, assign_all}
use cs_note.Http.RoundTrip.{parse_request-request_bytes}
use cs_note.Http.Stuck.{parse_request_after_refusal}
use cs_note.Http.Response.{
  HttpResponse, response_text, connection_text, append_to_buffer, append_to_buffer-response_text,
}
use cs_note.Http.Server.{default_http_callback, on_message}
use cs_note.Http.Server.Exchange.{IsSendable, answer, received_request, on_message-request_bytes}
use cs_note.Tcp.Connection.{Connection, connected, disconnecting, wrote}
use cs_note.Tcp.Connection.Stream.{stream, IsSound}
use cs_note.Examples.{filled, idle}

abbrev line : RequestLine
line = record { method = get; path = codes "/a"; query = some (codes "b"); minor = true }

line-IsWritable : IsWritable line
unfolding has_byte
line-IsWritable = record {
  known = ground arith;
  spaceless = refl;
  returnless = refl;
  path_only = refl;
}

abbrev fields : Map
fields = (codes "H", codes "v") ∷ []

fields-AllFields : AllFields fields
unfolding has_byte trim_end skip_spaces is_space
fields-AllFields = (
  record { colonless = refl; name_returnless = refl; value_returnless = refl; trimmed = refl },
  tt,
)

abbrev request_buffer : Buffer
request_buffer = filled (codes "GET /a?b HTTP/1.1\r\nH: v\r\n\r\nX")

parse_request-request_bytes_example :
    (b' : Buffer) × (parse_request 7 request_buffer
        (record { state = expect_request_line; request = new_request })
      ≡ ok (record {
        success = true;
        more = false;
        buffer = b';
        context = record {
          state = got_all;
          request = assign_all fields (record (parsed line new_request) { receive_time = 7 });
        };
      }))
    × IsValid b'
    × (contents b' ≡ codes "X")
unfolding method_string
parse_request-request_bytes_example =
    parse_request-request_bytes 7 line fields (codes "X") request_buffer new_request line-IsWritable
      fields-AllFields (omega arith) refl refl

parse_request-Stops_example : Stops (parse_request 7 request_buffer new_context)
unfolding method_string
parse_request-Stops_example = parse_request-Stops 7 request_buffer new_context (omega arith) refl

abbrev refused_buffer : Buffer
refused_buffer = filled (codes "GET /a\r\n")

parse_request_after_refusal_example :
    let refused : HttpContext = record {
      state = expect_request_line;
      request = record new_request { method = get };
    } in
    (parse_request 7 refused_buffer (record { state = expect_request_line; request = new_request })
      ≡ ok (record { success = false; more = false; buffer = refused_buffer; context = refused }))
    × (parse_request 8 refused_buffer refused ≡ fault assertion)
unfolding method_string has_byte
parse_request_after_refusal_example =
    parse_request_after_refusal 7 8 get (codes "/a") [] refused_buffer new_request (ground arith)
      refl refl (omega arith) refl refl

abbrev response : HttpResponse
response = record {
  headers = (codes "H", codes "v") ∷ [];
  status_code = 200;
  status_message = codes "OK";
  close_connection = false;
  body = codes "abc";
}

append_to_buffer-response_text_example :
    Result (contents (filled []) ++ response_text response) (append_to_buffer response (filled []))
unfolding response_text connection_text decimal digits_up
append_to_buffer-response_text_example =
    append_to_buffer-response_text response (filled []) (omega arith) (omega arith) (omega arith)
      (omega arith)

abbrev asking : Connection
asking = idle (codes "GET /a?b HTTP/1.1\r\nH: v\r\n\r\nX")

asking-IsSound : IsSound asking
asking-IsSound = record {
  input_valid = omega arith;
  output_valid = omega arith;
  watching = λ _. refl;
}

abbrev asked : HttpRequest
asked = received_request 7 line fields

answer-IsSendable : IsSendable (answer default_http_callback asked) (wrote 10) asking
unfolding default_http_callback response_text connection_text decimal digits_up
answer-IsSendable = record {
  code = omega arith;
  short = omega arith;
  queue = omega arith;
  takes = omega arith;
}

on_message-request_bytes_example :
    let r : HttpResponse = answer default_http_callback asked in
    (c' : Connection) × (on_message default_http_callback 7 (wrote 0) (wrote 10) asking new_context
      ≡ ok (c', new_context))
    × (contents c'.input ≡ codes "X")
    × (stream c' ≡ stream asking ++ response_text r)
    × (c'.state ≡ (if r.close_connection then disconnecting else connected))
unfolding method_string
on_message-request_bytes_example =
    on_message-request_bytes default_http_callback 7 (wrote 0) (wrote 10) line fields (codes "X")
      asking line-IsWritable fields-AllFields refl asking-IsSound refl answer-IsSendable

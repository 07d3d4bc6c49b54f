-- ===== src/Http/Server/Exchange.antt =====
-- Requests and answers of muduo/net/http/HttpServer.cc, from the bytes received to the bytes sent.
use cs_note.Common.{
  ℕ, ◌+◌, ◌≤◌, ◌<◌, ◌^◌, ◌≡◌, refl, ap, ◌∙◌, Bool, true, false, List, ◌∷◌, ◌++◌, if◌then◌else◌,
  length, arith, Checked, ok, ◌>>=◌, Map, max_size,
}
use cs_note.Buffer.{Buffer, cheap_prepend, contents, initial_size, retrieve_all}
use cs_note.Buffer.Filling.{fresh, fresh-IsValid, new-ok}
use cs_note.Http.{HttpRequest, new_context, new_request}
use cs_note.Http.Format.{
  RequestLine, IsWritable, AllFields, request_line, field_lines, parsed, assign_all,
}
use cs_note.Http.RoundTrip.{parse_request-request_bytes}
use cs_note.Http.Response.{
  HttpResponse, new_response, response_text, append_to_buffer-response_text,
}
use cs_note.Http.Server.{HttpCallback, closes, on_request, refuse, on_message}
use cs_note.Tcp.Connection.{
  Connection, connected, disconnecting, WriteResult, is_connected, send_buffer, send_in_loop,
  shutdown, shutdown_in_loop,
}
use cs_note.Tcp.Connection.Stream.{stream, IsSound, Takes, send_in_loop-Sent}

-- The request that the parser makes of these lines at this time.
abbrev pub received_request : ℕ → RequestLine → Map → HttpRequest
received_request now l hs = assign_all hs (record (parsed l new_request) { receive_time = now })

-- What the callback answers to a request.
abbrev pub answer : HttpCallback → HttpRequest → HttpResponse
answer http_callback req = http_callback req (new_response (closes req))

-- A response that can be written and sent whole: an `int` can count its text.
pub record IsSendable (r : HttpResponse) (w : WriteResult) (c : Connection) : Type 0 where
  pub code : r.status_code < 2 ^ 31
  pub short : length (response_text r) < 2 ^ 31
  pub queue : c.output.writer + length (response_text r) + cheap_prepend ≤ max_size
  pub takes : Takes (length (response_text r)) w

-- A connection after an answer.
pub record Answered (r : HttpResponse) (c : Connection) (result : Checked Connection) : Type 0 where
  pub conn : Connection
  pub returned : result ≡ ok conn
  pub sent : stream conn ≡ stream c ++ response_text r
  pub state : conn.state ≡ (if r.close_connection then disconnecting else connected)
  pub input : conn.input ≡ c.input

shutdown_lem :
    (c : Connection)
    → c.state ≡ connected
    → ((shutdown c).state ≡ disconnecting)
      × (stream (shutdown c) ≡ stream c)
      × ((shutdown c).input ≡ c.input)
unfolding shutdown shutdown_in_loop
shutdown_lem c e = ground arith

-- The end of `onRequest`.
closed_or_not :
    (close : Bool) (c : Connection)
    → c.state ≡ connected
    → let done : Connection = if close then shutdown c else c in
      (done.state ≡ (if close then disconnecting else connected))
      × (stream done ≡ stream c)
      × (done.input ≡ c.input)
closed_or_not true c e = shutdown_lem c e
closed_or_not false c e = (e, refl, refl)

pub send_buffer_lem :
    (buf : Buffer) (w : WriteResult) (c c' : Connection)
    → is_connected c.state ≡ true
    → send_in_loop (contents buf) w c ≡ ok c'
    → send_buffer buf w c ≡ ok (c', retrieve_all buf)
unfolding send_buffer
send_buffer_lem buf w c c' e sent =
    ap
      (λ b.
        if b
        then (send_in_loop (contents buf) w c >>= λ d. ok (d, retrieve_all buf))
        else ok (c, buf))
      e
    ∙ ap (λ r. r >>= λ d. ok (d, retrieve_all buf)) sent

on_request-Answered :
    (cb : HttpCallback) (w : WriteResult) (req : HttpRequest) (c : Connection)
    → c.state ≡ connected
    → IsSound c
    → IsSendable (answer cb req) w c
    → Answered (answer cb req) c (on_request cb w req c)
unfolding on_request
on_request-Answered cb w req c e sound ok_to_send =
    let r : HttpResponse = answer cb req in
    let a =
      append_to_buffer-response_text r (fresh initial_size) ok_to_send.code ok_to_send.short
        (fresh-IsValid initial_size (omega arith)) (omega (arith, ok_to_send.short)) in
    let message : List ℕ = contents a.buffer in
    let s =
      send_in_loop-Sent message w c sound (rw e refl) (rw a.holds ok_to_send.takes)
        (rw a.holds ok_to_send.queue) in
    let (state, same, input) = closed_or_not r.close_connection s.conn (s.same.state ∙ e) in
    record {
      conn = if r.close_connection then shutdown s.conn else s.conn;
      returned =
          rw
            (
              new-ok initial_size (omega arith),
              a.returned,
              send_buffer_lem a.buffer w c s.conn (rw e refl) s.returned,
            )
            refl;
      sent = same ∙ s.sent ∙ ap (◌++◌ (stream c)) a.holds;
      state = state;
      input = input ∙ s.same.input;
    }

-- From bytes to bytes. When the input buffer of a sound, connected connection holds a well-formed
-- request, then one call of `onMessage` with a fresh context consumes exactly these bytes, sends
-- exactly the text of the callback's answer, shuts the connection down if the answer says so, and
-- leaves a fresh context. The status code of the answer is below 2^31, its text is shorter than 2^31
-- bytes and fits the output buffer, and the write takes no more than there is and reports no broken
-- connection.
pub on_message-request_bytes :
    (cb : HttpCallback) (now : ℕ) (refused answered : WriteResult) (l : RequestLine) (hs : Map)
    (rest : List ℕ) (c : Connection)
    → IsWritable l
    → AllFields hs
    → c.state ≡ connected
    → IsSound c
    → contents c.input ≡ request_line l ++ 13 ∷ 10 ∷ (field_lines hs ++ 13 ∷ 10 ∷ rest)
    → IsSendable (answer cb (received_request now l hs)) answered c
    → let r : HttpResponse = answer cb (received_request now l hs) in
      (c' : Connection) × (on_message cb now refused answered c new_context ≡ ok (c', new_context))
      × (contents c'.input ≡ rest)
      × (stream c' ≡ stream c ++ response_text r)
      × (c'.state ≡ (if r.close_connection then disconnecting else connected))
unfolding on_message refuse
on_message-request_bytes cb now refused answered l hs rest c w fs e sound held ok_to_send =
    let (b, parsed_all, valid, left) =
      parse_request-request_bytes now l hs rest c.input new_request w fs sound.input_valid refl
        held in
    let a =
      on_request-Answered cb answered (received_request now l hs) (record c { input = b }) e
        (record {
          input_valid = valid;
          output_valid = sound.output_valid;
          watching = sound.watching;
        })
        (record {
          code = ok_to_send.code;
          short = ok_to_send.short;
          queue = ok_to_send.queue;
          takes = ok_to_send.takes;
        }) in
    (a.conn, rw (parsed_all, a.returned) refl, ap contents a.input ∙ left, a.sent, a.state)

-- ===== src/Http/Server.antt =====
-- muduo/net/http/HttpServer.cc: what the server does with the bytes that a connection has received. The
-- user's callback fills in the response; it is a parameter.
pub mod Exchange
use cs_note.Common.{
  ℕ, Bool, true, false, ◌&&◌, ◌||◌, not, List, if◌then◌else◌, Checked, ok, ◌>>=◌, codes, bytes_eq,
}
use cs_note.Buffer.{Buffer, initial_size, new}
use cs_note.Http.{
  HttpRequest, Version, http10, HttpContext, new_context, got_all?, get_header, reset,
  parse_request,
}
use cs_note.Http.Response.{HttpResponse, new_response, append_to_buffer}
use cs_note.Tcp.Connection.{Connection, WriteResult, is_connected, send, send_buffer, shutdown}

abbrev pub HttpCallback : Type 0
HttpCallback = HttpRequest → HttpResponse → HttpResponse

-- `detail::defaultHttpCallback`
unfoldable pub default_http_callback : HttpCallback
default_http_callback req resp = record resp {
  status_code = 404;
  status_message = codes "Not Found";
  close_connection = true;
}

abbrev is_http10 : Version → Bool
is_http10 http10 = true
is_http10 _ = false

-- A connection that has come up gets a context of its own.
abbrev pub on_connection : Connection → HttpContext → HttpContext
on_connection conn context = if is_connected conn.state then new_context else context

-- Whether the connection is to be closed after the response.
unfoldable pub closes : HttpRequest → Bool
closes req =
    let connection = get_header (codes "Connection") req in
    bytes_eq connection (codes "close")
    || (is_http10 req.version && not (bytes_eq connection (codes "Keep-Alive")))

unfoldable pub on_request :
    HttpCallback → WriteResult → HttpRequest → Connection → Checked Connection
on_request http_callback w req conn = do
  let response = http_callback req (new_response (closes req))
  buf ← new initial_size
  buf' ← append_to_buffer response buf
  (conn', emptied) ← send_buffer buf' w conn
  ok (if response.close_connection then shutdown conn' else conn')

abbrev pub bad_request : List ℕ
bad_request = codes "HTTP/1.1 400 Bad Request\r\n\r\n"

unfoldable pub refuse : Bool → WriteResult → Connection → Checked Connection
refuse true w conn = ok conn
refuse false w conn = do conn' ← send bad_request w conn; ok (shutdown conn')

-- The buffer is the connection's input buffer. `refused` and `answered` are the results of the writes
-- for the two messages that may be sent.
unfoldable pub on_message :
    HttpCallback
    → ℕ
    → WriteResult
    → WriteResult
    → Connection
    → HttpContext
    → Checked (Connection × HttpContext)
on_message http_callback now refused answered conn context = do
  r ← parse_request now conn.input context
  conn1 ← refuse r.success refused (record conn { input = r.buffer })
  if got_all? r.context.state
      then (do
        conn2 ← on_request http_callback answered r.context.request conn1
        ok (conn2, reset r.context))
      else ok (conn1, r.context)

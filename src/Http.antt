-- ===== src/Http.antt =====
-- muduo/net/http (under Linux多线程服务端编程/muduo/muduo/net/http): HttpRequest.h, HttpContext.h and
-- HttpContext.cc. The parser reads a request from a `Buffer`, a line at a time.
pub mod Response
pub mod Server
pub mod Lines
pub mod Steps
pub mod Termination
pub mod Format
pub mod RoundTrip
pub mod Stuck
use cs_note.Common.{
  ℕ, zero, suc, ◌+◌, Bool, true, false, ◌&&◌, ◌||◌, Option, none, some, List, [], ◌∷◌,
  if◌then◌else◌, leb, ◌==◌, length, take, drop, Checked, ok, fault, out_of_fuel, assert, ◌>>=◌,
  ◌>>◌, sub_size, codes, bytes_eq, break_at, assign, lookup, Map,
}
use cs_note.Buffer.{Buffer, contents, find_crlf, retrieve_until}

pub data Method : Type 0 where
  invalid get post head put delete : Method

pub data Version : Type 0 where
  unknown http10 http11 : Version

pub record HttpRequest : Type 0 where
  pub method : Method
  pub version : Version
  pub path : List ℕ
  pub query : List ℕ
  pub receive_time : ℕ
  pub headers : Map

abbrev pub new_request : HttpRequest
new_request = record {
  method = invalid;
  version = unknown;
  path = [];
  query = [];
  receive_time = 0;
  headers = [];
}

abbrev is_invalid : Method → Bool
is_invalid invalid = true
is_invalid _ = false

abbrev pub is_known : Method → Bool
is_known invalid = false
is_known _ = true

unfoldable pub method_of : List ℕ → Method
method_of m =
    if bytes_eq m (codes "GET")
    then get
    else if bytes_eq m (codes "POST")
    then post
    else if bytes_eq m (codes "HEAD")
    then head
    else if bytes_eq m (codes "PUT")
    then put
    else if bytes_eq m (codes "DELETE")
    then delete
    else invalid

-- `setMethod` asserts that no method is set, and says whether the name is known.
unfoldable pub set_method : List ℕ → HttpRequest → Checked (Bool × HttpRequest)
set_method m r = do
  assert (is_invalid r.method)
  let found = method_of m
  ok (is_known found, record r { method = found })

unfoldable pub method_string : Method → List ℕ
method_string get = codes "GET"
method_string post = codes "POST"
method_string head = codes "HEAD"
method_string put = codes "PUT"
method_string delete = codes "DELETE"
method_string invalid = codes "UNKNOWN"

-- `isspace` in the "C" locale.
unfoldable pub is_space : ℕ → Bool
is_space c = c == 32 || (leb 9 c && leb c 13)

unfoldable pub skip_spaces : List ℕ → List ℕ
skip_spaces [] = []
skip_spaces (x ∷ xs) = let rest = skip_spaces xs in if is_space x then rest else x ∷ xs

-- Drops the white space at the end, as `value.resize(value.size()-1)` does.
unfoldable pub trim_end : List ℕ → List ℕ
trim_end [] = []
trim_end (x ∷ xs) =
    let rest = trim_end xs in
    elim rest [ [] ↦ if is_space x then [] else x ∷ [] | y ∷ ys ↦ x ∷ y ∷ ys ]

-- `addHeader(start, colon, end)`: the bytes before the colon, and those behind it.
unfoldable pub add_header : List ℕ → List ℕ → HttpRequest → HttpRequest
add_header field rest r = record r {
  headers = assign field (trim_end (skip_spaces rest)) r.headers;
}

unfoldable pub get_header : List ℕ → HttpRequest → List ℕ
get_header field r = elim (lookup field r.headers) [ none ↦ [] | some value ↦ value ]

pub data ParseState : Type 0 where
  expect_request_line expect_headers expect_body got_all : ParseState

pub record HttpContext : Type 0 where
  pub state : ParseState
  pub request : HttpRequest

abbrev pub new_context : HttpContext
new_context = record { state = expect_request_line; request = new_request }

-- `reset` swaps in a fresh request.
abbrev pub reset : HttpContext → HttpContext
reset c = record c { state = expect_request_line; request = new_request }

abbrev pub got_all? : ParseState → Bool
got_all? got_all = true
got_all? _ = false

-- The path and, from the '?' on, the query.
unfoldable pub set_target : List ℕ → HttpRequest → HttpRequest
set_target uri r = elim (break_at 63 uri) [
  | none ↦ record r { path = uri }
  | some (path, query) ↦ record r { path = path; query = 63 ∷ query }
]

-- "HTTP/1.1" or "HTTP/1.0", eight bytes long.
unfoldable pub set_version : List ℕ → HttpRequest → Bool × HttpRequest
set_version v r =
    if length v == 8 && bytes_eq (take 7 v) (codes "HTTP/1.")
    then if bytes_eq (drop 7 v) (codes "1")
      then (true, record r { version = http11 })
      else if bytes_eq (drop 7 v) (codes "0")
      then (true, record r { version = http10 })
      else (false, r)
    else (false, r)

-- What follows the method: target, a space, version.
unfoldable pub process_target : List ℕ → HttpRequest → Bool × HttpRequest
process_target rest r = elim (break_at 32 rest) [
  | none ↦ (false, r)
  | some (uri, version) ↦ set_version version (set_target uri r)
]

unfoldable pub process_request_line : List ℕ → HttpRequest → Checked (Bool × HttpRequest)
process_request_line line r = elim (break_at 32 line) [
  | none ↦ ok (false, r)
  | some (name, rest) ↦ do
    (known, r') ← set_method name r
    ok (if known then process_target rest r' else (false, r'))
]

-- The loop's variables.
pub record Loop : Type 0 where
  pub success : Bool
  pub more : Bool
  pub buffer : Buffer
  pub context : HttpContext

-- The bytes from `peek()` up to the offset that `findCRLF` returned.
abbrev pub line_before : ℕ → Buffer → List ℕ
line_before crlf b = take (sub_size crlf b.reader) (drop b.reader b.bytes)

unfoldable pub after_line : ℕ → ℕ → Bool × HttpRequest → Buffer → HttpContext → Checked Loop
after_line now crlf (true, r) b c = do
  b' ← retrieve_until (crlf + 2) b
  ok (record {
    success = true;
    more = true;
    buffer = b';
    context = record { state = expect_headers; request = record r { receive_time = now } };
  })
after_line now crlf (false, r) b c =
    ok (record { success = false; more = false; buffer = b; context = record c { request = r } })

unfoldable pub step_header : ℕ → Buffer → HttpContext → Checked Loop
step_header crlf b c = elim (break_at 58 (line_before crlf b)) [
  | some (field, rest) ↦ do
    b' ← retrieve_until (crlf + 2) b
    ok (record {
      success = true;
      more = true;
      buffer = b';
      context = record c { request = add_header field rest c.request };
    })
  | none ↦ do
    b' ← retrieve_until (crlf + 2) b
    ok (record {
      success = true;
      more = false;
      buffer = b';
      context = record c { state = got_all };
    })
]

-- One round of the loop of `parseRequest`.
unfoldable pub step : ℕ → ParseState → Buffer → HttpContext → Checked Loop
step now expect_request_line b c = elim (find_crlf b) [
  | none ↦ ok (record { success = true; more = false; buffer = b; context = c })
  | some crlf ↦ do
    result ← process_request_line (line_before crlf b) c.request
    after_line now crlf result b c
]
step now expect_headers b c = elim (find_crlf b) [
  | none ↦ ok (record { success = true; more = false; buffer = b; context = c })
  | some crlf ↦ step_header crlf b c
]
step now expect_body b c = ok (record { success = true; more = true; buffer = b; context = c })
step now got_all b c = ok (record { success = true; more = true; buffer = b; context = c })

-- `while (hasMore)` with fuel, which counts the rounds.
unfoldable pub parse_loop : ℕ → ℕ → Buffer → HttpContext → Checked Loop
parse_loop zero now b c = fault out_of_fuel
parse_loop (suc fuel) now b c = do
  l ← step now c.state b c
  elim l.more [ true ↦ parse_loop fuel now l.buffer l.context | false ↦ ok l ]

-- A round that goes on takes two bytes or more, so this is enough.
abbrev pub parse_fuel : Buffer → ℕ
parse_fuel b = suc (length (contents b))

unfoldable pub parse_request : ℕ → Buffer → HttpContext → Checked Loop
parse_request now b c = parse_loop (parse_fuel b) now b c

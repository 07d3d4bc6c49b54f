-- ===== src/Http/RoundTrip.antt =====
-- `parseRequest` of muduo/net/http/HttpContext.cc reads back a request that is written out.
use cs_note.Common.{
  ℕ, zero, suc, ◌<◌, ◌≤◌, ◌≡◌, refl, ap, ◌∙◌, true, false, none, List, [], ◌∷◌, ◌++◌, append_assoc,
  arith, length, length-append, ok, break_at, break_at-append, assign, Map,
}
use cs_note.Buffer.{Buffer, contents, search_crlf}
use cs_note.Buffer.Contents.{IsValid}
use cs_note.Buffer.Search.{IsLine}
use cs_note.Http.{
  HttpRequest, invalid, expect_request_line, expect_headers, got_all, add_header, skip_spaces,
  is_space, parse_loop, parse_request,
}
use cs_note.Http.Lines.{AtLine-contents}
use cs_note.Http.Steps.{step-request, step-field, step-end}
use cs_note.Http.Format.{
  RequestLine, IsWritable, request_line, parsed, IsField, AllFields, field_line, field_lines,
  assign_all, request_line-IsLine, field_line-IsLine, process_request_line-request_line,
}

add_header-field :
    (field value : List ℕ) (r : HttpRequest)
    → IsField (field, value)
    → add_header field (32 ∷ value) r ≡ record r { headers = assign field value r.headers }
unfolding add_header skip_spaces is_space
add_header-field field value r f =
    ap (λ v. record r { headers = assign field v r.headers }) f.trimmed

search_none : IsLine []
unfolding search_crlf
search_none = refl

break_none : break_at 58 [] ≡ none
unfolding break_at
break_none = refl

-- The header part: `n` fields and the empty line take `n + 1` rounds.
parse_loop-field_lines :
    (fuel now : ℕ) (hs : Map) (rest : List ℕ) (b : Buffer) (r : HttpRequest)
    → length hs < fuel
    → AllFields hs
    → IsValid b
    → contents b ≡ field_lines hs ++ 13 ∷ 10 ∷ rest
    → (b' : Buffer) × (parse_loop fuel now b (record { state = expect_headers; request = r })
        ≡ ok (record {
          success = true;
          more = false;
          buffer = b';
          context = record { state = got_all; request = assign_all hs r };
        }))
      × IsValid b'
      × (contents b' ≡ rest)
unfolding parse_loop
parse_loop-field_lines zero now hs rest b r lt fs v e = absurd (omega arith)
parse_loop-field_lines (suc fuel) now [] rest b r lt fs v e =
    let at = AtLine-contents [] rest v search_none e in
    (
      at.after.buffer,
      rw (step-end now (record { state = expect_headers; request = r }) at break_none) refl,
      at.after.valid,
      at.after.holds,
    )
parse_loop-field_lines (suc fuel) now ((field, value) ∷ hs) rest b r lt (f, fs) v e =
    let rest' : List ℕ = field_lines hs ++ 13 ∷ 10 ∷ rest in
    let line : List ℕ = field_line (field, value) in
    let at =
      AtLine-contents line rest' v (field_line-IsLine field value f)
        (e ∙ append_assoc line (13 ∷ 10 ∷ field_lines hs) (13 ∷ 10 ∷ rest)) in
    rw
      (step-field now (record { state = expect_headers; request = r }) at field (32 ∷ value)
        (break_at-append 58 field (32 ∷ value) f.colonless))
      (rw (add_header-field field value r f) (
        parse_loop-field_lines fuel now hs rest at.after.buffer
          (record r { headers = assign field value r.headers }) (omega arith) fs at.after.valid
          at.after.holds))

length-field_lines : (hs : Map) → length hs ≤ length (field_lines hs)
length-field_lines [] = omega arith
length-field_lines (h ∷ hs) =
    omega (arith, length-append (field_line h) (13 ∷ 10 ∷ field_lines hs), length-field_lines hs)

-- A request whose line and headers are well formed, at the front of a valid buffer, is read back
-- whole by one call with a context that has no method yet, whatever follows it in the buffer: the
-- context has its method, path, query, version, receive time and headers, and exactly its bytes
-- are consumed.
pub parse_request-request_bytes :
    (now : ℕ) (l : RequestLine) (hs : Map) (rest : List ℕ) (b : Buffer) (r : HttpRequest)
    → IsWritable l
    → AllFields hs
    → IsValid b
    → r.method ≡ invalid
    → contents b ≡ request_line l ++ 13 ∷ 10 ∷ (field_lines hs ++ 13 ∷ 10 ∷ rest)
    → (b' : Buffer) × (parse_request now b (record { state = expect_request_line; request = r })
        ≡ ok (record {
          success = true;
          more = false;
          buffer = b';
          context = record {
            state = got_all;
            request = assign_all hs (record (parsed l r) { receive_time = now });
          };
        }))
      × IsValid b'
      × (contents b' ≡ rest)
unfolding parse_request parse_loop
parse_request-request_bytes now l hs rest b r w fs v new e =
    let rest' : List ℕ = field_lines hs ++ 13 ∷ 10 ∷ rest in
    let line : List ℕ = request_line l in
    let at = AtLine-contents line rest' v (request_line-IsLine l w) e in
    let enough : length hs < length (contents b) = omega (
      arith,
      ap length e,
      length-append line (13 ∷ 10 ∷ rest'),
      length-append (field_lines hs) (13 ∷ 10 ∷ rest),
      length-field_lines hs,
    ) in
    rw
      (step-request now (record { state = expect_request_line; request = r }) at (parsed l r)
        (process_request_line-request_line l r w new))
      (parse_loop-field_lines (length (contents b)) now hs rest at.after.buffer
        (record (parsed l r) { receive_time = now }) enough fs at.after.valid at.after.holds)

-- ===== src/Http/Stuck.antt =====
-- The request line that muduo/net/http/HttpContext.cc leaves in the buffer when it refuses it.
use cs_note.Common.{
  ℕ, ◌≡◌, ◌≢◌, refl, false, List, ◌∷◌, ◌++◌, arith, ok, fault, assertion, has_byte, break_at-append,
  break_at-none,
}
use cs_note.Buffer.{Buffer, contents}
use cs_note.Buffer.Contents.{IsValid}
use cs_note.Http.{
  HttpRequest, HttpContext, Method, invalid, expect_request_line, method_string, set_method,
  process_request_line, process_target, step, parse_loop, parse_request,
}
use cs_note.Http.Lines.{AtLine-contents}
use cs_note.Http.Steps.{step-bad_request}
use cs_note.Http.Format.{
  IsLine-of_has_byte, has_byte-append, method_string_spaceless, method_of-method_string,
  is_known-true,
}

-- A method that the parser knows, a space, and no second space: there is no version.
abbrev pub versionless : Method → List ℕ → List ℕ
versionless m target = method_string m ++ 32 ∷ target

process_request_line-versionless :
    (m : Method) (target : List ℕ) (r : HttpRequest)
    → m ≢ invalid
    → has_byte 32 target ≡ false
    → r.method ≡ invalid
    → process_request_line (versionless m target) r ≡ ok (false, record r { method = m })
unfolding process_request_line set_method process_target
process_request_line-versionless m target r known spaceless new =
    rw
      (
        break_at-append 32 (method_string m) target (method_string_spaceless m).0,
        process_request_line,
      )
      (rw (new, method_of-method_string m known)
        (rw (is_known-true m known) (rw (break_at-none 32 target spaceless, process_target))))

process_request_line-set :
    (m : Method) (target : List ℕ) (r : HttpRequest)
    → r.method ≡ m
    → m ≢ invalid
    → process_request_line (versionless m target) r ≡ fault assertion
unfolding process_request_line set_method
process_request_line-set m target r e known =
    rw
      (
        break_at-append 32 (method_string m) target (method_string_spaceless m).0,
        process_request_line,
      )
      (ground arith)

-- A request line with a known method and no version is refused, and stays in the buffer with its
-- method set in the context. The next call reads it again, and the assertion of `setMethod` fails.
pub parse_request_after_refusal :
    (now later : ℕ) (m : Method) (target rest : List ℕ) (b : Buffer) (r : HttpRequest)
    → m ≢ invalid
    → has_byte 32 target ≡ false
    → has_byte 13 target ≡ false
    → IsValid b
    → r.method ≡ invalid
    → contents b ≡ versionless m target ++ 13 ∷ 10 ∷ rest
    → let refused : HttpContext = record {
      state = expect_request_line;
      request = record r { method = m };
    } in
      (parse_request now b (record { state = expect_request_line; request = r })
        ≡ ok (record { success = false; more = false; buffer = b; context = refused }))
      × (parse_request later b refused ≡ fault assertion)
unfolding parse_request parse_loop step has_byte
parse_request_after_refusal now later m target rest b r known spaceless returnless v new e =
    let at =
      AtLine-contents (versionless m target) rest v
        (IsLine-of_has_byte (versionless m target) (
          has_byte-append 13 (method_string m) (32 ∷ target) (method_string_spaceless m).1
            returnless))
        e in
    (
      rw
          (step-bad_request now (record { state = expect_request_line; request = r }) at _
            (process_request_line-versionless m target r known spaceless new))
          refl,
      rw (at.found, step)
          (rw at.taken
            (rw (process_request_line-set m target (record r { method = m }) refl known))),
    )

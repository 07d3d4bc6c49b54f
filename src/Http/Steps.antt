-- ===== src/Http/Steps.antt =====
-- One round of the loop in muduo/net/http/HttpContext.cc, branch by branch.
use cs_note.Common.{ℕ, ◌≡◌, true, false, List, none, some, arith, ok, break_at}
use cs_note.Buffer.{Buffer, find_crlf}
use cs_note.Http.{
  HttpRequest, HttpContext, expect_request_line, expect_headers, got_all, process_request_line,
  add_header, step, step_header, after_line,
}
use cs_note.Http.Lines.{AtLine}

module _ (now : ℕ) (b : Buffer) (c : HttpContext) where
  pub step-wait_request :
      find_crlf b ≡ none
      → step now expect_request_line b c
        ≡ ok (record { success = true; more = false; buffer = b; context = c })
  unfolding step
  step-wait_request e = ground (arith, e)

  pub step-wait_header :
      find_crlf b ≡ none
      → step now expect_headers b c
        ≡ ok (record { success = true; more = false; buffer = b; context = c })
  unfolding step
  step-wait_header e = ground (arith, e)

module _ (now : ℕ) {b : Buffer} (c : HttpContext) {line rest : List ℕ} {end : ℕ}
    (at : AtLine b line rest end) where
  pub step-request :
      (r : HttpRequest)
      → process_request_line line c.request ≡ ok (true, r)
      → step now expect_request_line b c
        ≡ ok (record {
          success = true;
          more = true;
          buffer = at.after.buffer;
          context = record { state = expect_headers; request = record r { receive_time = now } };
        })
  unfolding step after_line
  step-request r e = rw (at.found, step) (rw (at.taken) (rw e (rw (at.after.returned))))

  pub step-bad_request :
      (r : HttpRequest)
      → process_request_line line c.request ≡ ok (false, r)
      → step now expect_request_line b c
        ≡ ok (record {
          success = false;
          more = false;
          buffer = b;
          context = record c { request = r };
        })
  unfolding step after_line
  step-bad_request r e = rw (at.found, step) (rw at.taken (rw e))

  pub step-field :
      (field value : List ℕ)
      → break_at 58 line ≡ some (field, value)
      → step now expect_headers b c
        ≡ ok (record {
          success = true;
          more = true;
          buffer = at.after.buffer;
          context = record c { request = add_header field value c.request };
        })
  unfolding step step_header
  step-field field value e =
      rw (at.found, step) (rw (at.taken, step_header) (rw (e, step_header) (rw at.after.returned)))

  pub step-end :
      break_at 58 line ≡ none
      → step now expect_headers b c
        ≡ ok (record {
          success = true;
          more = false;
          buffer = at.after.buffer;
          context = record c { state = got_all };
        })
  unfolding step step_header
  step-end e =
      rw (at.found, step) (rw (at.taken, step_header) (rw (e, step_header) (rw at.after.returned)))

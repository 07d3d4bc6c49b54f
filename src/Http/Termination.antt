-- ===== src/Http/Termination.antt =====
-- `parseRequest` of muduo/net/http/HttpContext.cc ends: each round that goes on consumes a line.
use cs_note.Common.{
  ℕ, zero, suc, ◌+◌, ◌<◌, ◌≡◌, refl, ap, ◌⊎◌, inl, inr, Bool, true, false, List, ◌∷◌, Option-cases,
  none, arith, length, length-append, ok, Checked, fault, out_of_fuel, break_at, if◌then◌else◌,
}
use mathlib.Core.Option
use cs_note.Buffer.{Buffer, contents, find_crlf, search_crlf}
use cs_note.Buffer.Contents.{IsValid}
use cs_note.Buffer.Search.{search_crlf-Found}
use cs_note.Http.{
  HttpRequest, HttpContext, Loop, ParseState, Method, invalid, expect_request_line, expect_headers,
  expect_body, got_all, step, parse_loop, parse_fuel, parse_request, process_request_line,
  process_target, set_method, method_of, is_known, add_header,
}
use cs_note.Http.Lines.{AtLine, AtLine-contents}
use cs_note.Http.Steps.{
  step-wait_request, step-wait_header, step-request, step-bad_request, step-field, step-end,
}

-- The parser expects a line, and has no method before the first one.
abbrev pub IsReady : ParseState → Method → Type 0
IsReady expect_request_line m = m ≡ invalid
IsReady expect_headers m = Unit {0}
IsReady expect_body m = ⊥
IsReady got_all m = ⊥

-- The ways in which `parseRequest` ends: an error, a whole request, or a wait for more bytes.
pub record Stops (r : Checked Loop) : Type 0 where
  pub last : Loop
  pub returned : r ≡ ok last
  pub valid : IsValid last.buffer
  pub outcome :
      (last.success ≡ false)
      ⊎ ((last.context.state ≡ got_all)
          ⊎ ((find_crlf last.buffer ≡ none)
              × IsReady last.context.state last.context.request.method))

-- Where the content has a line, and where it has none.
pub data Lines (b : Buffer) : Type 0 where
  none_yet : find_crlf b ≡ none → Lines b
  a_line :
      (line rest : List ℕ) (end : ℕ)
      → length rest < length (contents b)
      → AtLine b line rest end
      → Lines b

pub Lines-total : {b : Buffer} → IsValid b → Lines b
unfolding find_crlf
Lines-total {b} v = elim (Option-cases (search_crlf (contents b))) [
  | inl e ↦ none_yet (ap (Option.map (λ i. b.reader + i)) e)
  | inr (i, e) ↦
      let f = search_crlf-Found (contents b) i e in
      a_line f.line f.rest (b.reader + length f.line)
        (omega (arith, ap length f.split, length-append f.line (13 ∷ 10 ∷ f.rest)))
        (AtLine-contents f.line f.rest v f.first f.split)
]

-- With no method set, `setMethod`'s assertion holds.
set_method-ok :
    (name : List ℕ) (r : HttpRequest)
    → r.method ≡ invalid
    → (known : Bool) × (r' : HttpRequest) × (set_method name r ≡ ok (known, r'))
unfolding set_method
set_method-ok name r e =
    (is_known (method_of name), record r { method = method_of name }, rw e refl)

pub process_request_line-ok :
    (line : List ℕ) (r : HttpRequest)
    → r.method ≡ invalid
    → (known : Bool) × (r' : HttpRequest) × (process_request_line line r ≡ ok (known, r'))
unfolding process_request_line
process_request_line-ok line r e = elim (Option-cases (break_at 32 line)) [
  | inl missing ↦ (false, r, rw (missing, process_request_line))
  | inr ((name, rest), found) ↦
      let (known, r', set) = set_method-ok name r e in
      let out : Bool × HttpRequest = if known then process_target rest r' else (false, r') in
      (out.0, out.1, rw (found, process_request_line) (rw set refl))
]

abbrev Returns : Bool → Checked (Bool × HttpRequest) → Type 0
Returns known m = (r : HttpRequest) × (m ≡ ok (known, r))

request_line-cases :
    {m : Checked (Bool × HttpRequest)}
    → (known : Bool) × (r : HttpRequest) × (m ≡ ok (known, r))
    → Returns true m ⊎ Returns false m
request_line-cases (true, r, e) = inl (r, e)
request_line-cases (false, r, e) = inr (r, e)

pub parse_loop-Stops :
    (fuel now : ℕ) (s : ParseState) (b : Buffer) (r : HttpRequest)
    → IsValid b
    → length (contents b) < fuel
    → IsReady s r.method
    → Stops (parse_loop fuel now b (record { state = s; request = r }))
unfolding parse_loop
parse_loop-Stops zero now s b r v lt ready = absurd (omega arith)
parse_loop-Stops (suc fuel) now expect_body b r v lt ready = absurd ready
parse_loop-Stops (suc fuel) now got_all b r v lt ready = absurd ready
parse_loop-Stops (suc fuel) now expect_request_line b r v lt ready = elim (Lines-total v) [
  | none_yet wait ↦
      rw (step-wait_request now b (record { state = expect_request_line; request = r }) wait)
        (record { last = _; returned = refl; valid = v; outcome = inr (inr (wait, ready)) })
  | a_line line rest end shorter at ↦
      elim (request_line-cases (process_request_line-ok line r ready)) [
        | inl (r', e) ↦
            rw (step-request now (record { state = expect_request_line; request = r }) at r' e) (
              parse_loop-Stops fuel now expect_headers at.after.buffer
                (record r' { receive_time = now }) at.after.valid
                (omega (arith, ap length at.after.holds)) tt)
        | inr (r', e) ↦
            rw (step-bad_request now (record { state = expect_request_line; request = r }) at r' e)
              (record { last = _; returned = refl; valid = v; outcome = inl refl })
      ]
]
parse_loop-Stops (suc fuel) now expect_headers b r v lt ready = elim (Lines-total v) [
  | none_yet wait ↦
      rw (step-wait_header now b (record { state = expect_headers; request = r }) wait)
        (record { last = _; returned = refl; valid = v; outcome = inr (inr (wait, tt)) })
  | a_line line rest end shorter at ↦ elim (Option-cases (break_at 58 line)) [
    | inl blank ↦
        rw (step-end now (record { state = expect_headers; request = r }) at blank)
          (record { last = _; returned = refl; valid = at.after.valid; outcome = inr (inl refl) })
    | inr ((field, value), found) ↦
        rw (step-field now (record { state = expect_headers; request = r }) at field value found) (
          parse_loop-Stops fuel now expect_headers at.after.buffer (add_header field value r)
            at.after.valid (omega (arith, ap length at.after.holds)) tt)
  ]
]

-- On a valid buffer, before a request or among its headers, `parseRequest` returns, no assertion
-- fails, and it reports an error, has the whole request, or has used up every line that is there.
pub parse_request-Stops :
    (now : ℕ) (b : Buffer) (c : HttpContext)
    → IsValid b
    → IsReady c.state c.request.method
    → Stops (parse_request now b c)
unfolding parse_request
parse_request-Stops now b c v ready =
    parse_loop-Stops (parse_fuel b) now c.state b c.request v (omega arith) ready

-- With a whole request in the context that was not reset, the loop has no branch to take: no number
-- of rounds is enough.
pub parse_loop-got_all :
    (fuel now : ℕ) (b : Buffer) (r : HttpRequest)
    → parse_loop fuel now b (record { state = got_all; request = r }) ≡ fault out_of_fuel
unfolding parse_loop step
parse_loop-got_all zero now b r = refl
parse_loop-got_all (suc fuel) now b r = parse_loop-got_all fuel now b r

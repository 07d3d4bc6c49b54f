-- ===== src/Http/Lines.antt =====
-- The buffer of muduo/net/http/HttpContext.cc seen as lines: what `findCRLF`, the range up to it and
-- `retrieveUntil(crlf + 2)` are when the content begins with a line.
use cs_note.Common.{
  ℕ, suc, ◌+◌, ◌≡◌, refl, ap, ◌∙◌, some, List, [], ◌∷◌, ◌++◌, arith, length, take, drop,
  length-append, take-append, take-take, le→leb,
}
use mathlib.Core.Option
use cs_note.Buffer.{
  Buffer, contents, readable_bytes, find_crlf, retrieve, retrieve_until, search_crlf,
}
use cs_note.Buffer.Contents.{IsValid, Result, length-contents, retrieve-drop}
use cs_note.Buffer.Search.{IsLine, search_crlf-append}
use cs_note.Http.{line_before}

pub drop-line : (line rest : List ℕ) → drop (length line + 2) (line ++ 13 ∷ 10 ∷ rest) ≡ rest
drop-line [] rest = refl
drop-line (x ∷ line) rest =
    ap (λ k. drop k (x ∷ (line ++ 13 ∷ 10 ∷ rest))) {y = suc (length line + 2)} (omega arith)
    ∙ drop-line line rest

-- `end` is the offset that `findCRLF` returns.
pub record AtLine (b : Buffer) (line rest : List ℕ) (end : ℕ) : Type 0 where
  pub found : find_crlf b ≡ some end
  pub taken : line_before end b ≡ line
  pub after : Result rest (retrieve_until (end + 2) b)

pub AtLine-contents :
    {b : Buffer} (line rest : List ℕ)
    → IsValid b
    → IsLine line
    → contents b ≡ line ++ 13 ∷ 10 ∷ rest
    → AtLine b line rest (b.reader + length line)
unfolding find_crlf retrieve_until
AtLine-contents {b} line rest v first e =
    let n : ℕ = length line in
    let size : n + 2 + length rest ≡ readable_bytes b =
      omega (arith, length-contents v, ap length e, length-append line (13 ∷ 10 ∷ rest)) in
    let r = retrieve-drop (n + 2) v (omega (arith, size)) in
    record {
      found =
          ap (λ xs. Option.map (λ i. b.reader + i) (search_crlf xs)) e
          ∙ ap (Option.map (λ i. b.reader + i)) (search_crlf-append line rest first);
      taken =
          ap (λ k. take k (drop b.reader b.bytes)) {y = n} (omega (arith, size))
          ∙ take-take n (readable_bytes b) (drop b.reader b.bytes) (omega (arith, size))
          ∙ ap (take n) e
          ∙ take-append n line (13 ∷ 10 ∷ rest) refl;
      after = record {
        buffer = r.buffer;
        returned =
            rw
              (
                le→leb b.reader (b.reader + n + 2) (omega arith),
                le→leb (b.reader + n + 2) b.writer (omega (arith, size)),
              )
              (ap (λ k. retrieve k b) {y = n + 2} (omega (arith, size)) ∙ r.returned);
        valid = r.valid;
        holds = r.holds ∙ ap (drop (n + 2)) e ∙ drop-line line rest;
      };
    }

-- ===== src/Hub/Messages/RoundTrip.antt =====
-- The messages of examples/hub/hub.cc, read back by examples/hub/codec.cc.
use cs_note.Common.{
  ℕ, suc, ◌+◌, ◌≤◌, ◌≡◌, refl, ap, subst, ◌∙◌, some, List, [], ◌∷◌, ◌++◌, append_assoc, arith,
  length, drop, length-append, le→leb, codes, bytes_eq, break_at, Checked, ok,
}
use cs_note.Buffer.{
  Buffer, contents, readable_bytes, find_crlf, find_crlf_from, retrieve, retrieve_until,
}
use cs_note.Buffer.Contents.{
  IsValid, Result, length-contents, retrieve-drop, contents-Holds, Holds-contents, advance-Holds,
}
use cs_note.Buffer.Search.{IsLine}
use cs_note.Http.Lines.{AtLine-contents, drop-line}
use cs_note.Hub.{make_message}
use cs_note.Hub.Messages.{success, range, parse_content, parse_words, parse_line, parse_message}

-- The buffer from a later offset on, of which the bytes in front make no difference to a search.
abbrev from : ℕ → Buffer → Buffer
from start b = record b { reader = start }

from-IsValid :
    {b : Buffer} (n : ℕ) → IsValid b → n ≤ readable_bytes b → IsValid (from (b.reader + n) b)
from-IsValid {b} n v h = record {
  ordered = omega (arith, v.ordered, v.inside, v.fits);
  inside = v.inside;
  fits = v.fits;
  room = v.room;
}

from-contents :
    {b : Buffer} (n : ℕ)
    → IsValid b
    → n ≤ readable_bytes b
    → contents (from (b.reader + n) b) ≡ drop n (contents b)
from-contents {b} n v h =
    contents-Holds (from-IsValid n v h)
      (advance-Holds n (omega (arith, length-contents v)) (Holds-contents v))

find_crlf_from-from :
    (start : ℕ) (b : Buffer) (end : ℕ)
    → b.reader ≤ start
    → start ≤ b.writer
    → find_crlf (from start b) ≡ some end
    → find_crlf_from start b ≡ ok (some end)
unfolding find_crlf find_crlf_from
find_crlf_from-from start b end low high e =
    rw (le→leb b.reader start low, le→leb start b.writer high) (ap ok e)

retrieve_until-drop :
    {b : Buffer} (n end : ℕ)
    → IsValid b
    → n ≤ readable_bytes b
    → end ≡ b.reader + n
    → Result (drop n (contents b)) (retrieve_until end b)
unfolding retrieve_until
retrieve_until-drop {b} n end v h e =
    let r = retrieve-drop n v h in
    record {
      buffer = r.buffer;
      returned =
          rw (le→leb b.reader end (omega arith), le→leb end b.writer (omega arith))
            (ap (λ k. retrieve k b) {y = n} (omega arith) ∙ r.returned);
      valid = r.valid;
      holds = r.holds;
    }

drop_both :
    (line content rest : List ℕ)
    → drop
        (length line + 2 + (length content + 2))
        (line ++ (13 ∷ 10 ∷ (content ++ (13 ∷ 10 ∷ rest))))
      ≡ rest
drop_both [] content rest =
    ap (λ k. drop k (13 ∷ 10 ∷ (content ++ (13 ∷ 10 ∷ rest)))) {y = suc (suc (length content + 2))}
      (omega arith)
    ∙ drop-line content rest
drop_both (x ∷ line) content rest =
    ap (λ k. drop k (x ∷ (line ++ (13 ∷ 10 ∷ (content ++ (13 ∷ 10 ∷ rest))))))
      {y = suc (length line + 2 + (length content + 2))} (omega arith)
    ∙ drop_both line content rest

-- Two lines, and the offsets of their ends.
record Lines (b : Buffer) (line content rest : List ℕ) (r : Checked Buffer) : Type 0 where
  first : find_crlf b ≡ some (b.reader + length line)
  words : range b.reader (b.reader + length line) b ≡ line
  second :
      find_crlf_from (b.reader + length line + 2) b
      ≡ ok (some (b.reader + length line + 2 + length content))
  body :
      range (b.reader + length line + 2) (b.reader + length line + 2 + length content) b ≡ content
  after : Result rest r

Lines-contents :
    {b : Buffer} (line content rest : List ℕ)
    → IsValid b
    → IsLine line
    → IsLine content
    → contents b ≡ line ++ (13 ∷ 10 ∷ (content ++ (13 ∷ 10 ∷ rest)))
    → Lines b line content rest (retrieve_until (b.reader + length line + 2 + length content + 2) b)
Lines-contents {b} line content rest v l c e =
    let more : List ℕ = content ++ 13 ∷ 10 ∷ rest in
    let n : ℕ = length line + 2 in
    let total : length (contents b) ≡ n + (length content + (2 + length rest)) = omega (
      arith,
      ap length e,
      length-append line (13 ∷ 10 ∷ more),
      length-append content (13 ∷ 10 ∷ rest),
    ) in
    let start : b.reader + n ≡ b.reader + length line + 2 = omega arith in
    let fits : n ≤ readable_bytes b = omega (arith, total, length-contents v) in
    let second_line : contents (from (b.reader + n) b) ≡ more =
      from-contents n v fits ∙ ap (drop n) e ∙ drop-line line more in
    let one = AtLine-contents line more v l e in
    let two = AtLine-contents content rest (from-IsValid n v fits) c second_line in
    let r =
      retrieve_until-drop (n + (length content + 2))
        (b.reader + length line + 2 + length content + 2) v
        (omega (arith, total, length-contents v)) (omega arith) in
    record {
      first = one.found;
      words = one.taken;
      second =
          subst (λ k. find_crlf_from k b ≡ ok (some (k + length content))) start
            (find_crlf_from-from (b.reader + n) b (b.reader + n + length content) (omega arith)
              (omega (arith, fits, v.ordered, v.inside, v.fits)) two.found);
      body = subst (λ k. range k (k + length content) b ≡ content) start two.taken;
      after = record {
        buffer = r.buffer;
        returned = r.returned;
        valid = r.valid;
        holds = r.holds ∙ ap (drop (n + (length content + 2))) e ∙ drop_both line content rest;
      };
    }

-- A "pub" as the server writes it, at the front of a valid buffer, is read back: topic and content, where
-- neither line has an end of line in it; what follows stays in the buffer.
pub parse_message-make_message :
    {b : Buffer} (topic content rest : List ℕ)
    → IsValid b
    → IsLine (codes "pub " ++ topic)
    → IsLine content
    → contents b ≡ make_message topic content ++ rest
    → (b' : Buffer) × (parse_message b
        ≡ ok (record {
          result = success;
          cmd = codes "pub";
          topic = topic;
          content = content;
          buffer = b';
        }))
      × IsValid b'
      × (contents b' ≡ rest)
unfolding parse_message parse_line parse_words parse_content bytes_eq break_at
parse_message-make_message {b} topic content rest v l c e =
    let line : List ℕ = codes "pub " ++ topic in
    let lines = Lines-contents line content rest v l c (
      e
      ∙ append_assoc line (13 ∷ 10 ∷ (content ++ (13 ∷ 10 ∷ []))) rest
      ∙ ap (λ x. line ++ (13 ∷ 10 ∷ x)) (append_assoc content (13 ∷ 10 ∷ []) rest)) in
    (
      lines.after.buffer,
      rw (lines.first, lines.words, lines.second, lines.body, lines.after.returned) refl,
      lines.after.valid,
      lines.after.holds,
    )

-- ===== src/Hub/Messages.antt =====
-- examples/hub/codec.cc and the loop of `onMessage` in hub.cc. A `const char*` into the buffer is its offset.
-- The loop runs on fuel; a failed assertion of the buffer is a fault.
pub mod RoundTrip
use cs_note.Common.{
  ℕ, zero, suc, ◌+◌, sub_size, Bool, true, false, Option, none, some, List, [], ◌∷◌, ◌++◌,
  if◌then◌else◌, take, drop, codes, bytes_eq, break_at, Checked, ok, fault, out_of_fuel, ◌>>=◌,
}
use cs_note.Buffer.{Buffer, find_crlf, find_crlf_from, retrieve_until}
use cs_note.Hub.{PubSubServer, do_subscribe, do_unsubscribe, do_publish}

pub data ParseResult : Type 0 where
  error success unfinished : ParseResult

pub record Parsed : Type 0 where
  pub result : ParseResult
  pub cmd : List ℕ
  pub topic : List ℕ
  pub content : List ℕ
  pub buffer : Buffer

-- The bytes from one pointer up to another.
abbrev pub range : ℕ → ℕ → Buffer → List ℕ
range start end b = take (sub_size end start) (drop start b.bytes)

-- The strings before they are assigned.
abbrev pub unassigned : ParseResult → Buffer → Parsed
unassigned r b = record { result = r; cmd = []; topic = []; content = []; buffer = b }

-- The second line of a "pub".
unfoldable pub parse_content : ℕ → Option ℕ → Parsed → Checked Parsed
parse_content start none p = ok (record p { result = unfinished })
parse_content start (some end) p = do
  b ← retrieve_until (end + 2) p.buffer
  ok (record p { result = success; content = range start end p.buffer; buffer = b })

unfoldable pub parse_words : ℕ → Option (List ℕ × List ℕ) → Buffer → Checked Parsed
parse_words crlf none b = ok (unassigned error b)
parse_words crlf (some (cmd, topic)) b =
    let p : Parsed = record (unassigned success b) { cmd = cmd; topic = topic } in
    if bytes_eq cmd (codes "pub")
    then (do found ← find_crlf_from (crlf + 2) b; parse_content (crlf + 2) found p)
    else (do b' ← retrieve_until (crlf + 2) b; ok (record p { buffer = b' }))

unfoldable pub parse_line : Option ℕ → Buffer → Checked Parsed
parse_line none b = ok (unassigned unfinished b)
parse_line (some crlf) b = parse_words crlf (break_at 32 (range b.reader crlf b)) b

unfoldable pub parse_message : Buffer → Checked Parsed
parse_message b = parse_line (find_crlf b) b

-- What is done with a parsed message, and whether the loop goes on.
unfoldable pub perform : ℕ → Parsed → PubSubServer → Bool × PubSubServer
perform conn p s =
    if bytes_eq p.cmd (codes "pub")
    then (true, do_publish p.topic p.content s)
    else if bytes_eq p.cmd (codes "sub")
    then (true, do_subscribe conn p.topic s)
    else if bytes_eq p.cmd (codes "unsub")
    then (true, do_unsubscribe conn p.topic s)
    else (false, record s { shut = s.shut ++ conn ∷ [] })

-- The loop goes on with what the commands before it left.
abbrev pub after_command :
    (Buffer → PubSubServer → Checked (Buffer × PubSubServer))
    → Buffer
    → Bool × PubSubServer
    → Checked (Buffer × PubSubServer)
after_command loop b (true, s) = loop b s
after_command loop b (false, s) = ok (b, s)

abbrev pub after_parse :
    (Buffer → PubSubServer → Checked (Buffer × PubSubServer))
    → ℕ
    → ParseResult
    → Parsed
    → PubSubServer
    → Checked (Buffer × PubSubServer)
after_parse loop conn error p s = ok (p.buffer, record s { shut = s.shut ++ conn ∷ [] })
after_parse loop conn unfinished p s = ok (p.buffer, s)
after_parse loop conn success p s = after_command loop p.buffer (perform conn p s)

unfoldable pub on_message : ℕ → ℕ → Buffer → PubSubServer → Checked (Buffer × PubSubServer)
on_message zero conn b s = fault out_of_fuel
on_message (suc fuel) conn b s = do
  p ← parse_message b
  after_parse (on_message fuel conn) conn p.result p s

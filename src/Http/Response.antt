-- ===== src/Http/Response.antt =====
-- muduo/net/http/HttpResponse.h and HttpResponse.cc: a response and how it is written to a buffer.
use cs_note.Common.{
  ℕ, ◌+◌, ◌≤◌, ◌<◌, ◌^◌, ◌≡◌, refl, sym, ap, ◌∙◌, Bool, List, [], ◌∷◌, ◌++◌, append_assoc,
  append-nil, if◌then◌else◌, length, take, take-all, length-append, length-decimal, arith, Checked,
  ok, ◌>>=◌, Map, assign, codes, decimal, max_size, Bool-cases, inl, inr,
}
use cs_note.Buffer.{Buffer, cheap_prepend, contents, int_size, append_sized, append, append_string}
use cs_note.Buffer.Contents.{IsValid, Result}
use cs_note.Buffer.Writing.{append-Roomy}

pub record HttpResponse : Type 0 where
  pub headers : Map
  pub status_code : ℕ
  pub status_message : List ℕ
  pub close_connection : Bool
  pub body : List ℕ

-- kUnknown is 0.
abbrev pub new_response : Bool → HttpResponse
new_response close = record {
  headers = [];
  status_code = 0;
  status_message = [];
  close_connection = close;
  body = [];
}

abbrev pub add_header : List ℕ → List ℕ → HttpResponse → HttpResponse
add_header key value r = record r { headers = assign key value r.headers }

abbrev pub set_content_type : List ℕ → HttpResponse → HttpResponse
set_content_type content_type r = add_header (codes "Content-Type") content_type r

abbrev pub crlf : List ℕ
crlf = 13 ∷ 10 ∷ []

-- `snprintf` into `char buf[32]`, which keeps 31 characters and a NUL.
abbrev pub in_buf : List ℕ → List ℕ
in_buf text = take 31 text

-- What is appended for the headers, string by string.
unfoldable pub header_pieces : Map → List (List ℕ)
header_pieces [] = []
header_pieces ((key, value) ∷ hs) = key ∷ codes ": " ∷ value ∷ crlf ∷ header_pieces hs

unfoldable pub connection_pieces : HttpResponse → List (List ℕ)
connection_pieces r =
    if r.close_connection
    then (codes "Connection: close" ++ crlf) ∷ []
    else in_buf (codes "Content-Length: " ++ (decimal (length r.body) ++ crlf))
      ∷ (codes "Connection: Keep-Alive" ++ crlf)
      ∷ []

-- The strings that `appendToBuffer` appends, in the order of its calls.
unfoldable pub pieces : HttpResponse → List (List ℕ)
pieces r =
    in_buf (codes "HTTP/1.1 " ++ (decimal r.status_code ++ 32 ∷ []))
    ∷ r.status_message
    ∷ crlf
    ∷ (connection_pieces r ++ (header_pieces r.headers ++ crlf ∷ r.body ∷ []))

unfoldable pub append_each : List (List ℕ) → Buffer → Checked Buffer
append_each [] b = ok b
append_each (p ∷ ps) b = append_string p b >>= append_each ps

unfoldable pub append_to_buffer : HttpResponse → Buffer → Checked Buffer
append_to_buffer r b = append_each (pieces r) b

unfoldable pub joined : List (List ℕ) → List ℕ
joined [] = []
joined (p ∷ ps) = p ++ joined ps

-- A string that an `int` can count.
append_string-append :
    (p : List ℕ) (b : Buffer) → length p < 2 ^ 31 → append_string p b ≡ append p b
unfolding append_string append
append_string-append p b short =
    let same : int_size (length p) ≡ length p = ground arith in
    ap (λ n. append_sized p n b) {x = int_size (length p)} same

pub append_each-joined :
    (ps : List (List ℕ)) (b : Buffer)
    → length (joined ps) < 2 ^ 31
    → IsValid b
    → b.writer + length (joined ps) + cheap_prepend ≤ max_size
    → Result (contents b ++ joined ps) (append_each ps b)
unfolding append_each joined
append_each-joined [] b short v fits = record {
  buffer = b;
  returned = refl;
  valid = v;
  holds = sym (append-nil (contents b));
}
append_each-joined (p ∷ ps) b short v fits =
    let size = length-append p (joined ps) in
    let a = append-Roomy p v (λ _. omega arith) in
    let r =
      append_each-joined ps a.result.buffer (omega (arith, size)) a.result.valid
        (omega (arith, a.low)) in
    record {
      buffer = r.buffer;
      returned = rw (append_string-append p b (omega (arith, size)), a.result.returned) r.returned;
      valid = r.valid;
      holds =
          r.holds
          ∙ ap (λ c. c ++ joined ps) a.result.holds
          ∙ append_assoc (contents b) p (joined ps);
    }

-- The text of a response, by the grammar of HTTP: status line, header lines, empty line, body.
abbrev pub header_text : Map → List ℕ
header_text [] = []
header_text ((key, value) ∷ hs) = key ++ (codes ": " ++ (value ++ (crlf ++ header_text hs)))

unfoldable pub connection_text : HttpResponse → List ℕ
connection_text r =
    if r.close_connection
    then codes "Connection: close" ++ crlf
    else codes "Content-Length: "
      ++ (decimal (length r.body) ++ (crlf ++ (codes "Connection: Keep-Alive" ++ crlf)))

unfoldable pub response_text : HttpResponse → List ℕ
response_text r =
    codes "HTTP/1.1 "
    ++ (decimal r.status_code
        ++ (32
            ∷ (r.status_message
                ++ (crlf ++ (connection_text r ++ (header_text r.headers ++ (crlf ++ r.body)))))))

joined-append : (ps qs : List (List ℕ)) → joined (ps ++ qs) ≡ joined ps ++ joined qs
unfolding joined
joined-append [] qs = refl
joined-append (p ∷ ps) qs =
    ap (◌++◌ p) (joined-append ps qs) ∙ sym (append_assoc p (joined ps) (joined qs))

joined-header_pieces : (hs : Map) → joined (header_pieces hs) ≡ header_text hs
unfolding joined header_pieces
joined-header_pieces [] = refl
joined-header_pieces ((key, value) ∷ hs) =
    ap (λ t. key ++ (codes ": " ++ (value ++ (crlf ++ t)))) (joined-header_pieces hs)

joined-connection_pieces :
    (r : HttpResponse) → length r.body < 10 ^ 13 → joined (connection_pieces r) ≡ connection_text r
unfolding joined connection_pieces connection_text
joined-connection_pieces r small = elim (Bool-cases r.close_connection) [
  | inl e ↦ rw e refl
  | inr e ↦
      let n : List ℕ = decimal (length r.body) in
      let fits =
        take-all 15 (n ++ crlf)
          (omega (arith, length-append n crlf, length-decimal 12 (length r.body) small)) in
      rw (e, fits, append_assoc n crlf (codes "Connection: Keep-Alive" ++ crlf)) refl
]

joined-pieces :
    (r : HttpResponse)
    → r.status_code < 10 ^ 10
    → length r.body < 10 ^ 13
    → joined (pieces r) ≡ response_text r
unfolding joined pieces response_text
joined-pieces r code small =
    let n : List ℕ = decimal r.status_code in
    let fits =
      take-all 22 (n ++ 32 ∷ [])
        (omega (arith, length-append n (32 ∷ []), length-decimal 9 r.status_code code)) in
    rw
      (
        fits,
        append_assoc n (32 ∷ []) (
            r.status_message
            ++ (crlf
                ++ joined
                    (connection_pieces r ++ (header_pieces r.headers ++ crlf ∷ r.body ∷ [])))),
        joined-append (connection_pieces r) (header_pieces r.headers ++ crlf ∷ r.body ∷ []),
        joined-connection_pieces r small,
        joined-append (header_pieces r.headers) (crlf ∷ r.body ∷ []),
        joined-header_pieces r.headers,
        append-nil r.body,
      )
      refl

length-response_text : (r : HttpResponse) → length r.body ≤ length (response_text r)
unfolding response_text
length-response_text r =
    let n : List ℕ = decimal r.status_code in
    let tail : List ℕ = header_text r.headers ++ (crlf ++ r.body) in
    let message : List ℕ = r.status_message ++ (crlf ++ (connection_text r ++ tail)) in
    omega (
      arith,
      length-append n (32 ∷ message),
      length-append r.status_message (crlf ++ (connection_text r ++ tail)),
      length-append (connection_text r) tail,
      length-append (header_text r.headers) (crlf ++ r.body),
    )

-- On a valid buffer `appendToBuffer` adds exactly the text of the response at the end, with the
-- headers in the order of the map, provided an `int` can count the text and the size stays below what
-- a vector holds.
pub append_to_buffer-response_text :
    (r : HttpResponse) (b : Buffer)
    → r.status_code < 2 ^ 31
    → length (response_text r) < 2 ^ 31
    → IsValid b
    → b.writer + length (response_text r) + cheap_prepend ≤ max_size
    → Result (contents b ++ response_text r) (append_to_buffer r b)
unfolding append_to_buffer
append_to_buffer-response_text r b code short v fits =
    let same =
      joined-pieces r (omega (arith, code)) (omega (arith, short, length-response_text r)) in
    rw (← same) (append_each-joined (pieces r) b (rw same short) v (rw same fits))

-- ===== src/Http/Format.antt =====
-- Requests as text, for muduo/net/http/HttpContext.cc: which request lines and header fields can be
-- written, their bytes, and what the parser makes of each line.
use cs_note.Common.{
  ℕ, ◌≡◌, refl, ap, Bool, true, false, List, [], ◌∷◌, ◌++◌, append-nil, ◌≢◌, Option, none, some,
  arith, ok, codes, has_byte, break_at-append, break_at-none, bytes_eq, Map, assign, if◌then◌else◌,
}
use cs_note.Buffer.{search_crlf}
use cs_note.Buffer.Search.{IsLine}
use cs_note.Http.{
  HttpRequest, Method, invalid, get, post, head, put, delete, http10, http11, method_of,
  method_string, set_method, is_known, set_target, set_version, process_target,
  process_request_line, trim_end, skip_spaces,
}

-- No '\r': such bytes are a line wherever they stand.
pub IsLine-of_has_byte : (line : List ℕ) → has_byte 13 line ≡ false → IsLine line
unfolding has_byte search_crlf
IsLine-of_has_byte [] h = refl
IsLine-of_has_byte (x ∷ []) h = ground arith
IsLine-of_has_byte (x ∷ y ∷ line) h = ground (arith, IsLine-of_has_byte (y ∷ line))

-- A request line to be written: the query is empty, or begins with '?'.
pub record RequestLine : Type 0 where
  pub method : Method
  pub path : List ℕ
  pub query : Option (List ℕ)
  pub minor : Bool

abbrev pub query_bytes : Option (List ℕ) → List ℕ
query_bytes none = []
query_bytes (some q) = 63 ∷ q

abbrev pub version_bytes : Bool → List ℕ
version_bytes true = codes "HTTP/1.1"
version_bytes false = codes "HTTP/1.0"

abbrev pub request_line : RequestLine → List ℕ
request_line l =
    method_string l.method ++ 32 ∷ ((l.path ++ query_bytes l.query) ++ 32 ∷ version_bytes l.minor)

-- A method that the parser knows; a target with no space or '\r', whose path has no '?'.
pub record IsWritable (l : RequestLine) : Type 0 where
  pub known : l.method ≢ invalid
  pub spaceless : has_byte 32 (l.path ++ query_bytes l.query) ≡ false
  pub returnless : has_byte 13 (l.path ++ query_bytes l.query) ≡ false
  pub path_only : has_byte 63 l.path ≡ false

abbrev pub parsed : RequestLine → HttpRequest → HttpRequest
parsed l r = record r {
  method = l.method;
  path = l.path;
  query = elim l.query [ none ↦ r.query | some q ↦ 63 ∷ q ];
  version = if l.minor then http11 else http10;
}

pub method_of-method_string : (m : Method) → m ≢ invalid → method_of (method_string m) ≡ m
unfolding method_of method_string bytes_eq
method_of-method_string get h = refl
method_of-method_string post h = refl
method_of-method_string head h = refl
method_of-method_string put h = refl
method_of-method_string delete h = refl
method_of-method_string invalid h = absurd (h refl)

pub is_known-true : (m : Method) → m ≢ invalid → is_known m ≡ true
is_known-true invalid h = absurd (h refl)
is_known-true _ h = refl

pub method_string_spaceless :
    (m : Method) → (has_byte 32 (method_string m) ≡ false) × (has_byte 13 (method_string m) ≡ false)
unfolding method_string has_byte
method_string_spaceless get = (refl, refl)
method_string_spaceless post = (refl, refl)
method_string_spaceless head = (refl, refl)
method_string_spaceless put = (refl, refl)
method_string_spaceless delete = (refl, refl)
method_string_spaceless invalid = (refl, refl)

version_bytes_returnless : (minor : Bool) → has_byte 13 (32 ∷ version_bytes minor) ≡ false
unfolding has_byte
version_bytes_returnless true = refl
version_bytes_returnless false = refl

set_version-version_bytes :
    (minor : Bool) (r : HttpRequest)
    → set_version (version_bytes minor) r
      ≡ (true, record r { version = if minor then http11 else http10 })
unfolding set_version bytes_eq
set_version-version_bytes true r = refl
set_version-version_bytes false r = refl

set_target-query_bytes :
    (path : List ℕ) (query : Option (List ℕ)) (r : HttpRequest)
    → has_byte 63 path ≡ false
    → set_target (path ++ query_bytes query) r
      ≡ record r { path = path; query = elim query [ none ↦ r.query | some q ↦ 63 ∷ q ] }
unfolding set_target
set_target-query_bytes path none r h = rw append-nil (rw (break_at-none 63 path h, set_target))
set_target-query_bytes path (some q) r h = rw (break_at-append 63 path q h, set_target)

process_target-lem :
    (l : RequestLine) (r : HttpRequest)
    → IsWritable l
    → process_target
        ((l.path ++ query_bytes l.query) ++ 32 ∷ version_bytes l.minor)
        (record r { method = l.method })
      ≡ (true, parsed l r)
unfolding process_target
process_target-lem l r w =
    rw
      (
        break_at-append 32 (l.path ++ query_bytes l.query) (version_bytes l.minor) w.spaceless,
        process_target,
      )
      (rw (set_target-query_bytes l.path l.query (record r { method = l.method }) w.path_only)
        (set_version-version_bytes l.minor _))

pub process_request_line-request_line :
    (l : RequestLine) (r : HttpRequest)
    → IsWritable l
    → r.method ≡ invalid
    → process_request_line (request_line l) r ≡ ok (true, parsed l r)
unfolding process_request_line set_method
process_request_line-request_line l r w e =
    rw
      (
        break_at-append 32 (method_string l.method)
            ((l.path ++ query_bytes l.query) ++ 32 ∷ version_bytes l.minor)
            (method_string_spaceless l.method).0,
        process_request_line,
      )
      (rw (e, method_of-method_string l.method w.known)
        (rw (is_known-true l.method w.known) (ap ok (process_target-lem l r w))))

-- A header field to be written, as `field: value`.
abbrev pub field_line : List ℕ × List ℕ → List ℕ
field_line (field, value) = field ++ 58 ∷ 32 ∷ value

abbrev pub field_lines : Map → List ℕ
field_lines [] = []
field_lines (h ∷ hs) = field_line h ++ 13 ∷ 10 ∷ field_lines hs

-- No ':' in a name, no '\r' in either, and no white space round a value.
pub record IsField (h : List ℕ × List ℕ) : Type 0 where
  pub colonless : has_byte 58 h.0 ≡ false
  pub name_returnless : has_byte 13 h.0 ≡ false
  pub value_returnless : has_byte 13 h.1 ≡ false
  pub trimmed : trim_end (skip_spaces h.1) ≡ h.1

abbrev pub AllFields : Map → Type 0
AllFields [] = Unit {0}
AllFields (h ∷ hs) = IsField h × AllFields hs

-- The headers one after the other, a later one replacing an earlier one of its name.
abbrev pub assign_all : Map → HttpRequest → HttpRequest
assign_all [] r = r
assign_all (h ∷ hs) r = assign_all hs (record r { headers = assign h.0 h.1 r.headers })

pub has_byte-append :
    (c : ℕ) (xs ys : List ℕ)
    → has_byte c xs ≡ false
    → has_byte c ys ≡ false
    → has_byte c (xs ++ ys) ≡ false
unfolding has_byte
has_byte-append c [] ys h k = k
has_byte-append c (x ∷ xs) ys h k = ground (arith, has_byte-append c xs ys)

pub field_line-IsLine :
    (field value : List ℕ) → IsField (field, value) → IsLine (field_line (field, value))
unfolding has_byte
field_line-IsLine field value f =
    IsLine-of_has_byte (field_line (field, value))
      (has_byte-append 13 field (58 ∷ 32 ∷ value) f.name_returnless f.value_returnless)

pub request_line-IsLine : (l : RequestLine) → IsWritable l → IsLine (request_line l)
unfolding has_byte
request_line-IsLine l w =
    let target : List ℕ = l.path ++ query_bytes l.query in
    IsLine-of_has_byte (request_line l) (
      has_byte-append 13 (method_string l.method) (32 ∷ (target ++ 32 ∷ version_bytes l.minor))
        (method_string_spaceless l.method).1
        (has_byte-append 13 target (32 ∷ version_bytes l.minor) w.returnless
          (version_bytes_returnless l.minor)))

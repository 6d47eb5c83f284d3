-- ===== src/Parser/RoundTrip.antt =====
-- Printing a request and parsing it. The printer is the grammar that the parser is meant for:
-- Method SP Request-URI SP HTTP-Version CRLF, then each header on a line, then an empty line.
use f.Prelude.{
  ℕ, ◌+◌, ◌≤◌, ◌<◌, ◌≡◌, ◌≢◌, ◌⊎◌, ap, refl, ◌∙◌, List, [], ◌∷◌, ◌++◌, All, arith, append-nil,
  append_assoc,
}
use f.Bytes.{Bytes}
use f.Bytes.Decimal.{to_string}
use f.Http.{Header, HttpRequest, empty_request}
use f.Parser.{
  method_start, method, uri, http_version_major_start, http_version_major, http_version_minor_start,
  http_version_minor, header_line_start, header_name, header_value, expecting_newline_3, good, ok,
  fault, int_overflow, int_max, consume, parse,
}
use f.Parser.Runs.{
  IsToken, IsUriChar, IsValueChar, IsToken-ne, space-not_token, tab-not_token, return-not_token,
  run_method, run_uri, with_back, run_name, run_value,
}
use f.Parser.Versions.{within_int, run_major, run_minor}

-- A header line in front of `rest`.
abbrev pub render_header : Header → Bytes → Bytes
render_header h rest = h.name ++ (b':' ∷ b' ' ∷ (h.value ++ (b'\r' ∷ b'\n' ∷ rest)))

abbrev pub render_headers : List Header → Bytes → Bytes
render_headers [] rest = b'\r' ∷ b'\n' ∷ rest
render_headers (h ∷ hs) rest = render_header h (render_headers hs rest)

-- A request in front of `rest`.
abbrev pub render : HttpRequest → Bytes → Bytes
render r rest =
    r.method
    ++ (b' '
        ∷ (r.uri
            ++ (b' '
                ∷ b'H'
                ∷ b'T'
                ∷ b'T'
                ∷ b'P'
                ∷ b'/'
                ∷ (to_string r.http_version_major
                    ++ (b'.'
                        ∷ (to_string r.http_version_minor
                            ++ (b'\r' ∷ b'\n' ∷ render_headers r.headers rest)))))))

pub record IsHeader (h : Header) : Type 0 where
  pub name_ne_nil : h.name ≢ []
  pub name_tokens : All IsToken h.name
  pub value_chars : All IsValueChar h.value

-- The requests that the grammar can express.
pub record IsRequest (r : HttpRequest) : Type 0 where
  pub method_ne_nil : r.method ≢ []
  pub method_tokens : All IsToken r.method
  pub uri_chars : All IsUriChar r.uri
  pub header_lines : All IsHeader r.headers

start_name :
    (c : ℕ) (req : HttpRequest) (rest : Bytes)
    → IsToken c
    → parse header_line_start req (c ∷ rest) ≡ parse header_name (with_back req (c ∷ []) []) rest
unfolding parse consume
start_name c req rest t = ground (
  arith,
  IsToken-ne b'\r' c return-not_token,
  IsToken-ne b' ' c space-not_token,
  IsToken-ne b'\t' c tab-not_token,
)

colon_space :
    (req : HttpRequest) (rest : Bytes)
    → parse header_name req (b':' ∷ b' ' ∷ rest) ≡ parse header_value req rest
unfolding parse consume
colon_space req rest = refl

end_value :
    (req : HttpRequest) (rest : Bytes)
    → parse header_value req (b'\r' ∷ b'\n' ∷ rest) ≡ parse header_line_start req rest
unfolding parse consume
end_value req rest = refl

run_header :
    (n v : Bytes) (req : HttpRequest) (rest : Bytes)
    → n ≢ []
    → All IsToken n
    → All IsValueChar v
    → parse header_line_start req (render_header (record { name = n; value = v }) rest)
      ≡ parse header_line_start (with_back req n v) rest
run_header [] v req rest ne t k = absurd (ne refl)
run_header (c ∷ n) v req rest ne (t, ts) k =
    start_name c req _ t
    ∙ run_name n (c ∷ []) req _ ts
    ∙ colon_space _ _
    ∙ run_value v (c ∷ n) [] req _ k
    ∙ end_value _ rest

last_line :
    (req : HttpRequest) (rest : Bytes)
    → parse header_line_start req (b'\r' ∷ b'\n' ∷ rest) ≡ ok (expecting_newline_3, req, good, rest)
unfolding parse consume
last_line req rest = refl

pub run_headers :
    (hs : List Header) (req : HttpRequest) (rest : Bytes)
    → All IsHeader hs
    → parse header_line_start req (render_headers hs rest)
      ≡ ok (expecting_newline_3, record req { headers = req.headers ++ hs }, good, rest)
run_headers [] req rest h = rw append-nil (last_line req rest)
run_headers (h ∷ hs) req rest (p, ps) =
    run_header h.name h.value req (render_headers hs rest) p.name_ne_nil p.name_tokens p.value_chars
    ∙ run_headers hs (with_back req h.name h.value) rest ps
    ∙ rw append_assoc

start_method :
    (c : ℕ) (req : HttpRequest) (rest : Bytes)
    → IsToken c
    → parse method_start req (c ∷ rest)
      ≡ parse method (record req { method = req.method ++ c ∷ [] }) rest
unfolding parse consume
start_method c req rest t = rw t

run_method_start :
    (m : Bytes) (req : HttpRequest) (rest : Bytes)
    → m ≢ []
    → All IsToken m
    → parse method_start req (m ++ rest)
      ≡ parse method (record req { method = req.method ++ m }) rest
run_method_start [] req rest ne h = absurd (ne refl)
run_method_start (c ∷ m) req rest ne (t, h) =
    start_method c req (m ++ rest) t
    ∙ run_method m (record req { method = req.method ++ c ∷ [] }) rest h
    ∙ rw append_assoc

method_space :
    (req : HttpRequest) (rest : Bytes) → parse method req (b' ' ∷ rest) ≡ parse uri req rest
unfolding parse consume
method_space req rest = refl

version_prefix :
    (req : HttpRequest) (rest : Bytes)
    → parse uri req (b' ' ∷ b'H' ∷ b'T' ∷ b'T' ∷ b'P' ∷ b'/' ∷ rest)
      ≡ parse http_version_major_start
          (record req { http_version_major = 0; http_version_minor = 0 })
          rest
unfolding parse consume
version_prefix req rest = refl

version_dot :
    (req : HttpRequest) (rest : Bytes)
    → parse http_version_major req (b'.' ∷ rest) ≡ parse http_version_minor_start req rest
unfolding parse consume
version_dot req rest = refl

version_end :
    (req : HttpRequest) (rest : Bytes)
    → parse http_version_minor req (b'\r' ∷ b'\n' ∷ rest) ≡ parse header_line_start req rest
unfolding parse consume
version_end req rest = refl

-- The request that has all fields of `r` but its headers.
abbrev head : HttpRequest → HttpRequest
head r = record r { headers = [] }

run_minor_part :
    (r : HttpRequest) (rest : Bytes)
    → All IsHeader r.headers
    → parse http_version_minor_start
        (record (head r) { http_version_minor = 0 })
        (to_string r.http_version_minor ++ (b'\r' ∷ b'\n' ∷ render_headers r.headers rest))
      ≡ within_int r.http_version_minor (ok (expecting_newline_3, r, good, rest))
run_minor_part r rest h =
    run_minor r.http_version_minor (record (head r) { http_version_minor = 0 }) _ refl
    ∙ ap (within_int r.http_version_minor)
        (version_end (head r) _ ∙ run_headers r.headers (head r) rest h)

run_versions :
    (r : HttpRequest) (rest : Bytes)
    → All IsHeader r.headers
    → parse http_version_major_start
        (record (head r) { http_version_major = 0; http_version_minor = 0 })
        (to_string r.http_version_major
          ++ (b'.'
              ∷ (to_string r.http_version_minor
                  ++ (b'\r' ∷ b'\n' ∷ render_headers r.headers rest))))
      ≡ within_int r.http_version_major
          (within_int r.http_version_minor (ok (expecting_newline_3, r, good, rest)))
run_versions r rest h =
    run_major r.http_version_major
      (record (head r) { http_version_major = 0; http_version_minor = 0 }) _ refl
    ∙ ap (within_int r.http_version_major)
        (version_dot (record (head r) { http_version_minor = 0 }) _ ∙ run_minor_part r rest h)

run_render :
    (r : HttpRequest) (rest : Bytes)
    → IsRequest r
    → parse method_start empty_request (render r rest)
      ≡ within_int r.http_version_major
          (within_int r.http_version_minor (ok (expecting_newline_3, r, good, rest)))
run_render r rest h =
    run_method_start r.method empty_request _ h.method_ne_nil h.method_tokens
    ∙ method_space _ _
    ∙ run_uri r.uri (record empty_request { method = r.method }) _ h.uri_chars
    ∙ version_prefix (record empty_request { method = r.method; uri = r.uri }) _
    ∙ run_versions r rest h.header_lines

-- Every request that the grammar can express, with versions that leave room for one more `'0'` in
-- an `int`, is read back from its printed form whatever follows it: the result is `good`, the
-- request is the same, and the iterator stands right behind the empty line.
pub parse-render :
    (r : HttpRequest) (rest : Bytes)
    → IsRequest r
    → r.http_version_major + b'0' ≤ int_max
    → r.http_version_minor + b'0' ≤ int_max
    → parse method_start empty_request (render r rest) ≡ ok (expecting_newline_3, r, good, rest)
parse-render r rest h major minor = run_render r rest h ∙ ground arith

-- A request that the grammar can express, printed with a major or a minor version that leaves no
-- room for one more `'0'` in an `int`, makes the parser overflow one.
pub parse-render_overflow :
    (r : HttpRequest) (rest : Bytes)
    → IsRequest r
    → (int_max < r.http_version_major + b'0') ⊎ (int_max < r.http_version_minor + b'0')
    → parse method_start empty_request (render r rest) ≡ fault int_overflow
parse-render_overflow r rest h large = run_render r rest h ∙ ground arith

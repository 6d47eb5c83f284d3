-- ===== src/Reply/Wire.antt =====
-- The bytes of a reply, as its reader takes them apart.
use f.Prelude.{
  ℕ, suc, ◌≡◌, refl, Bool, true, false, List, [], ◌∷◌, ◌++◌, flatten, length, drop, All, arith,
  append-nil, if◌then◌else◌,
}
use f.Bytes.{Bytes, codes, equal}
use f.Bytes.Spans.{drop-length-append}
use f.Bytes.Decimal.{
  decimal, to_string, read_decimal, read_decimal-to_string, IsDigit, decimal-IsDigit,
}
use f.Http.{Header, HttpRequest, empty_request, tolower, find_header}
use f.Parser.{header_line_start, expecting_newline_3, good, ok, is_ctl, is_not_token, parse}
use f.Parser.Runs.{IsValueChar, token_test, token_test_sound, value_test, value_test_sound}
use f.Parser.RoundTrip.{IsHeader, render_headers, run_headers}
use f.Reply.{
  Handled, IfReplied, Tried, passed, taken, Reply, Status, to_buffer, header_buffers, to_buffers,
  framing, stock_reply, stock_content,
}

header_buffers-flatten :
    (hs : List Header) (content : Bytes)
    → flatten (header_buffers hs ++ codes "\r\n" ∷ content ∷ []) ≡ render_headers hs content
unfolding flatten
header_buffers-flatten [] content = rw append-nil
header_buffers-flatten (h ∷ hs) content = simp (header_buffers-flatten hs content)

-- The bytes behind the status line.
abbrev pub after_line : Reply → Bytes
after_line r = drop (length (to_buffer r.status)) (flatten (to_buffers r))

after_line-render : (r : Reply) → after_line r ≡ render_headers r.headers r.content
unfolding to_buffers flatten
after_line-render r = rw drop-length-append (header_buffers-flatten r.headers r.content)

-- The headers that the parser finds behind the status line.
abbrev pub with_headers : List Header → HttpRequest
with_headers hs = record empty_request { headers = hs }

-- Read by the header lines of the request grammar, what `to_buffers` puts behind the status line
-- gives the headers back, in order, and leaves the content, whenever the headers' names are tokens
-- and their values have no control character.
pub parse-to_buffers :
    (r : Reply)
    → All IsHeader r.headers
    → parse header_line_start empty_request (after_line r)
      ≡ ok (expecting_newline_3, with_headers r.headers, good, r.content)
parse-to_buffers r h = rw after_line-render (run_headers r.headers empty_request r.content h)

digit-IsValueChar : (c : ℕ) → IsDigit c → IsValueChar c
unfolding is_ctl
digit-IsValueChar c h = ground arith

All-map {ℓ κ μ} :
    {A : Type ℓ} {P : A → Type κ} {Q : A → Type μ} (xs : List A)
    → ((x : A) → P x → Q x)
    → All P xs
    → All Q xs
All-map [] f h = tt
All-map (x ∷ xs) f (p, h) = (f x p, All-map xs f h)

to_string-IsValueChar : (n : ℕ) → All IsValueChar (to_string n)
unfolding to_string
to_string-IsValueChar n = All-map (decimal (suc n) n) digit-IsValueChar (decimal-IsDigit (suc n) n)

pub framing-IsHeader :
    (content type : Bytes) → All IsValueChar type → All IsHeader (framing content type)
unfolding is_not_token token_test
framing-IsHeader content type h = (
  record {
    name_ne_nil = λ e. cc;
    name_tokens = token_test_sound (codes "Content-Length") refl;
    value_chars = to_string-IsValueChar (length content);
  },
  (
    record {
      name_ne_nil = λ e. cc;
      name_tokens = token_test_sound (codes "Content-Type") refl;
      value_chars = h;
    },
    tt,
  ),
)

-- The length that the headers state, for a reader that takes the first `content-length`.
abbrev pub stated_length : List Header → ℕ
stated_length hs = read_decimal 0 (find_header (codes "content-length") hs)

-- The headers state the number of bytes in the content.
abbrev pub IsFramed : Reply → Type 0
IsFramed r = stated_length r.headers ≡ length r.content

pub framing-stated_length :
    (content type : Bytes) → stated_length (framing content type) ≡ length content
unfolding find_header tolower equal
framing-stated_length content type = read_decimal-to_string (length content)

-- A reply whose header lines can be read back, with the content left behind them, and whose stated
-- length is that of the content.
abbrev pub IsDelimited : Reply → Type 0
IsDelimited r =
    (parse header_line_start empty_request (after_line r)
      ≡ ok (expecting_newline_3, with_headers r.headers, good, r.content))
    × IsFramed r

pub framing-IsDelimited :
    (s : Status) (content type : Bytes)
    → All IsValueChar type
    → IsDelimited (record { status = s; headers = framing content type; content = content })
framing-IsDelimited s content type h = (
  parse-to_buffers (record { status = s; headers = framing content type; content = content })
      (framing-IsHeader content type h),
  framing-stated_length content type,
)

pub html-IsValueChar : All IsValueChar (codes "text/html")
unfolding value_test is_ctl
html-IsValueChar = value_test_sound (codes "text/html") refl

-- Every stock reply can be read back: its header lines are well-formed, the content follows them,
-- and `Content-Length` is its length in decimal.
pub stock_reply-IsDelimited : (s : Status) → IsDelimited (stock_reply s)
unfolding stock_reply
stock_reply-IsDelimited s =
    framing-IsDelimited s (stock_content s) (codes "text/html") html-IsValueChar

-- What a resource may leave: the reply as it was where it does not serve, and else a delimited one.
abbrev pub Served : Reply → Tried → Type 0
Served rep (passed r) = r ≡ rep
Served rep (taken h) = IfReplied IsDelimited h

pub Served-if :
    (matches : Bool) (rep : Reply) (r : Handled)
    → IfReplied IsDelimited r
    → Served rep (if matches then taken r else passed rep)
Served-if true rep r h = h
Served-if false rep r h = refl

pub IsDelimited-if :
    (test : Bool) (r s : Reply)
    → IsDelimited r
    → IsDelimited s
    → IsDelimited (if test then r else s)
IsDelimited-if true r s h k = h
IsDelimited-if false r s h k = k

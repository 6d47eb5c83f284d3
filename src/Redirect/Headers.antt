-- ===== src/Redirect/Headers.antt =====
-- The header lines of a redirection, whatever the client sends.
use mathlib.Core.Option
use f.Prelude.{
  ℕ, zero, suc, ◌≡◌, refl, sym, subst, Bool, true, false, Option, none, some, List, [], ◌∷◌, ◌++◌,
  length, drop, All, All-append, if◌then◌else◌, ◌==◌, map, Bool-cases, inl, inr,
}
use f.Bytes.{Bytes, codes, starts_with, before, equal}
use f.Bytes.Decimal.{read_decimal-to_string}
use f.Http.{Header, HttpRequest, empty_request, tolower, find_header, get_header}
use f.Mime.Types.{extension_to_type-IsValueChar}
use f.Parser.{State, method_start, good, ok, parse}
use f.Parser.Runs.{IsUriChar, IsValueChar}
use f.Parser.RoundTrip.{IsHeader, IsRequest}
use f.Parser.Sound.{parse-good-IsRequest}
use f.Reply.{Reply, Status, bad_request, framing, stock_content, stock_reply}
use f.Reply.Wire.{
  IsDelimited, framing-IsHeader, framing-IsDelimited, html-IsValueChar, parse-to_buffers,
}
use f.Redirect.{
  contains, replace, host_name, uri_name, put_uri, put_host, expand, missing_host, item,
  add_headers, return_handler,
}

module _ {κ} (P : ℕ → Type κ) where
  All-drop : (n : ℕ) (s : Bytes) → All P s → All P (drop n s)
  All-drop zero s h = h
  All-drop (suc n) [] h = h
  All-drop (suc n) (c ∷ s) h = All-drop n s h.1

  pub All-before : (d : ℕ) (s : Bytes) → All P s → All P (before d s)
  unfolding before
  All-before d [] h = tt
  All-before d (c ∷ s) (p, h) = elim (Bool-cases (c == d)) [
    | inl same ↦ rw same tt
    | inr other ↦ rw other (p, All-before d s h)
  ]

  All-if : (test : Bool) (s t : Bytes) → All P s → All P t → All P (if test then s else t)
  All-if true s t h k = h
  All-if false s t h k = k

  All-replace : (text by s : Bytes) → All P by → All P s → All P (replace text by s)
  unfolding replace
  All-replace text by [] k h = k
  All-replace text by (c ∷ s) k h =
      All-if (starts_with text (c ∷ s)) _ _
        (All-append P by (drop (length text) (c ∷ s)) k (All-drop (length text) (c ∷ s) h))
        (h.0, All-replace text by s k h.1)

pub uri-IsValueChar : (s : Bytes) → All IsUriChar s → All IsValueChar s
uri-IsValueChar [] h = tt
uri-IsValueChar (c ∷ s) (p, h) = (p.1, uri-IsValueChar s h)

pub find_header-IsValueChar :
    (name : Bytes) (hs : List Header) → All IsHeader hs → All IsValueChar (find_header name hs)
unfolding find_header
find_header-IsValueChar name [] h = tt
find_header-IsValueChar name (x ∷ hs) (p, h) =
    All-if IsValueChar (equal (map tolower x.name) name) x.value (find_header name hs) p.value_chars
      (find_header-IsValueChar name hs h)

-- What can stand in a header, if there is one.
abbrev IsSent : Option Bytes → Type 0
IsSent none = Unit
IsSent (some value) = All IsValueChar value

missing-IsSent :
    (test : Bool) (value : Bytes)
    → All IsValueChar value
    → IsSent (if test then none else some value)
missing-IsSent true value k = tt
missing-IsSent false value k = k

put_host-IsSent :
    (host value : Bytes)
    → All IsValueChar host
    → All IsValueChar value
    → IsSent (put_host host value)
unfolding put_host
put_host-IsSent [] value h k = missing-IsSent (contains host_name value) value k
put_host-IsSent (c ∷ host) value h k =
    All-if IsValueChar (contains host_name value) _ value
      (All-replace IsValueChar host_name (before b':' (c ∷ host)) value
        (All-before IsValueChar b':' (c ∷ host) h) k)
      k

put_uri-IsValueChar :
    (req : HttpRequest) (value : Bytes)
    → IsRequest req
    → All IsValueChar value
    → All IsValueChar (put_uri req value)
unfolding put_uri
put_uri-IsValueChar req value h k =
    All-if IsValueChar (contains uri_name value) _ value
      (All-replace IsValueChar uri_name req.uri value (uri-IsValueChar req.uri h.uri_chars) k) k

map-IsSent :
    (req : HttpRequest) (o : Option Bytes)
    → IsRequest req
    → IsSent o
    → IsSent (Option.map (put_uri req) o)
map-IsSent req none h k = tt
map-IsSent req (some value) h k = put_uri-IsValueChar req value h k

expand-IsSent :
    (req : HttpRequest) (value : Bytes)
    → IsRequest req
    → All IsValueChar value
    → IsSent (expand req value)
unfolding expand get_header
expand-IsSent req value h k =
    map-IsSent req _ h (
      put_host-IsSent _ value (find_header-IsValueChar (codes "host") req.headers h.header_lines) k)

missing_host-IsDelimited : IsDelimited missing_host
missing_host-IsDelimited =
    framing-IsDelimited bad_request (codes "Missing 'Host' header in the request") _
      (extension_to_type-IsValueChar (codes ".txt"))

-- A stock reply with more header lines.
abbrev with_extra : Status → List Header → Reply
with_extra status extra = record (stock_reply status) {
  headers = framing (stock_content status) (codes "text/html") ++ extra;
}

pub with_extra-IsDelimited :
    (status : Status) (extra : List Header)
    → All IsHeader extra
    → IsDelimited (with_extra status extra)
unfolding find_header tolower equal stock_reply
with_extra-IsDelimited status extra h = (
  parse-to_buffers (with_extra status extra) (
      All-append IsHeader (framing (stock_content status) (codes "text/html")) extra
        (framing-IsHeader (stock_content status) (codes "text/html") html-IsValueChar) h),
  read_decimal-to_string (length (stock_content status)),
)

add_headers_missing :
    (req : HttpRequest) (e : List Header) (es : List (List Header)) (res : Reply)
    → expand req (item e).value ≡ none
    → add_headers req (e ∷ es) res ≡ missing_host
unfolding add_headers
add_headers_missing req e es res h = rw (h, add_headers)

add_headers_sent :
    (req : HttpRequest) (e : List Header) (es : List (List Header)) (res : Reply) {value : Bytes}
    → expand req (item e).value ≡ some value
    → add_headers req (e ∷ es) res
      ≡ add_headers req es (record res {
        headers = res.headers ++ (record { name = (item e).name; value = value }) ∷ [];
      })
unfolding add_headers
add_headers_sent req e es res h = rw (h, add_headers)

add_headers-IsDelimited :
    (req : HttpRequest) (status : Status) (es : List (List Header)) (extra : List Header)
    → IsRequest req
    → All IsHeader extra
    → All (λ e. IsHeader (item e)) es
    → IsDelimited (add_headers req es (with_extra status extra))
add_headers-IsDelimited req status [] extra h k t =
    unfold add_headers in with_extra-IsDelimited status extra k
add_headers-IsDelimited req status (e ∷ es) extra h k (p, t) =
    round (expand req (item e).value) refl (expand-IsSent req (item e).value h p.value_chars)
      (λ more m. add_headers-IsDelimited req status es more h m t)
  where
    round :
        (o : Option Bytes)
        → expand req (item e).value ≡ o
        → IsSent o
        → ((more : List Header)
            → All IsHeader more
            → IsDelimited (add_headers req es (with_extra status more)))
        → IsDelimited (add_headers req (e ∷ es) (with_extra status extra))
    round none eq w ih =
        subst IsDelimited (sym (add_headers_missing req e es _ eq)) missing_host-IsDelimited
    round (some value) eq w ih = subst IsDelimited (sym (add_headers_sent req e es _ eq)) (
        ih (extra ++ (record { name = (item e).name; value = value }) ∷ []) (
          All-append IsHeader extra _ k (
            record { name_ne_nil = p.name_ne_nil; name_tokens = p.name_tokens; value_chars = w },
            tt,
          )))

-- Whatever bytes were accepted as the request, the reply that a `return` section makes of it has
-- header lines that can be read back, and states its length: a client cannot end a header line by
-- the host or the URI that it sends, if the configured headers are header lines themselves.
pub return_handler-IsDelimited :
    (input : Bytes) (status : Status) (headers : List (List Header)) (res : Reply) {rest : Bytes}
    {s : State} {r : HttpRequest}
    → parse method_start empty_request input ≡ ok (s, r, good, rest)
    → All (λ e. IsHeader (item e)) headers
    → IsDelimited (return_handler status headers r res)
unfolding return_handler stock_reply
return_handler-IsDelimited input status headers res {r} e h =
    add_headers-IsDelimited r status headers [] (parse-good-IsRequest input e).0 tt h

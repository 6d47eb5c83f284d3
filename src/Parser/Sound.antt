-- ===== src/Parser/Sound.antt =====
-- What the parser has built so far, in each of its states.
use mathlib.Core.List.{concat-ne-nil}
use f.Prelude.{ℕ, ◌+◌, ◌≤◌, ◌≡◌, ◌≢◌, refl, List, [], ◌∷◌, All, All-concat, arith}
use f.Bytes.{Bytes}
use f.Http.{Header, HttpRequest, empty_request}
use f.Parser.{
  State, method_start, method, uri, http_version_major_start, http_version_major,
  http_version_minor_start, http_version_minor, header_line_start, header_lws, header_name,
  space_before_header_value, header_value, expecting_newline_3, good, bad, indeterminate, Checked,
  ok, fault, int_overflow, back_of_empty, int_max, is_digit, append_digit, update_back, push_name,
  push_value, ◌>>=◌, Consumed, Parsed, continue, consume, parse,
}
use f.Parser.Runs.{IsToken, IsUriChar, IsValueChar}
use f.Parser.RoundTrip.{IsHeader, IsRequest, render, parse-render}

abbrev Started : State → Bytes → Type 0
Started method_start m = Unit
Started _ m = m ≢ []

-- The states that change `headers.back()`, or lead to one that does.
abbrev HasBack : State → List Header → Type 0
HasBack header_lws hs = hs ≢ []
HasBack header_name hs = hs ≢ []
HasBack space_before_header_value hs = hs ≢ []
HasBack header_value hs = hs ≢ []
HasBack _ hs = Unit

record Inv (s : State) (r : HttpRequest) : Type 0 where
  tokens : All IsToken r.method
  started : Started s r.method
  uri_chars : All IsUriChar r.uri
  major_fits : r.http_version_major + b'0' ≤ int_max
  minor_fits : r.http_version_minor + b'0' ≤ int_max
  header_lines : All IsHeader r.headers
  back : HasBack s r.headers

abbrev Post : Consumed → Type 0
Post (ok (s, r, result)) = Inv s r × (result ≡ good → s ≡ expecting_newline_3)
Post (fault e) = e ≡ int_overflow

abbrev Updated : Checked (List Header) → Type 0
Updated (ok hs) = (hs ≢ []) × All IsHeader hs
Updated (fault e) = ⊥

update_back-Updated :
    (change : Header → Header) (hs : List Header)
    → ((h : Header) → IsHeader h → IsHeader (change h))
    → hs ≢ []
    → All IsHeader hs
    → Updated (update_back change hs)
unfolding update_back
update_back-Updated change [] keep ne h = absurd (ne refl)
update_back-Updated change (x ∷ []) keep ne h = ground (arith, keep x)
update_back-Updated change (x ∷ y ∷ hs) keep ne h =
    ground (arith, update_back-Updated change (y ∷ hs) keep)

push_name-IsHeader : (c : ℕ) → IsToken c → (h : Header) → IsHeader h → IsHeader (push_name c h)
push_name-IsHeader c t h v = record {
  name_ne_nil = concat-ne-nil c h.name;
  name_tokens = All-concat IsToken h.name c v.name_tokens t;
  value_chars = v.value_chars;
}

push_value-IsHeader :
    (c : ℕ) → IsValueChar c → (h : Header) → IsHeader h → IsHeader (push_value c h)
push_value-IsHeader c t h v = record {
  name_ne_nil = v.name_ne_nil;
  name_tokens = v.name_tokens;
  value_chars = All-concat IsValueChar h.value c v.value_chars t;
}

first_char-IsHeader : (c : ℕ) → IsToken c → IsHeader (record { name = c ∷ []; value = [] })
first_char-IsHeader c t = record { name_ne_nil = λ e. cc; name_tokens = (t, tt); value_chars = tt }

consume-Post : (s : State) (r : HttpRequest) (c : ℕ) → Inv s r → Post (consume s r c)
unfolding consume
consume-Post method_start r c v =
    ground (arith, All-concat IsToken r.method c, concat-ne-nil c r.method)
consume-Post method r c v = ground (arith, All-concat IsToken r.method c, concat-ne-nil c r.method)
consume-Post uri r c v = ground (arith, All-concat IsUriChar r.uri c)
consume-Post http_version_major_start r c v = unfold append_digit is_digit in ground arith
consume-Post http_version_major r c v = unfold append_digit is_digit in ground arith
consume-Post http_version_minor_start r c v = unfold append_digit is_digit in ground arith
consume-Post http_version_minor r c v = unfold append_digit is_digit in ground arith
consume-Post header_line_start r c v = ground (
  arith,
  All-concat IsHeader r.headers (record { name = c ∷ []; value = [] }) v.header_lines,
  first_char-IsHeader c,
  concat-ne-nil (record { name = c ∷ []; value = [] }) r.headers,
)
consume-Post header_lws r c v = ground (
  arith,
  λ (t : IsValueChar c).
      update_back-Updated (push_value c) r.headers (push_value-IsHeader c t) v.back v.header_lines,
)
consume-Post header_name r c v = ground (
  arith,
  λ (t : IsToken c).
      update_back-Updated (push_name c) r.headers (push_name-IsHeader c t) v.back v.header_lines,
)
consume-Post header_value r c v = ground (
  arith,
  λ (t : IsValueChar c).
      update_back-Updated (push_value c) r.headers (push_value-IsHeader c t) v.back v.header_lines,
)
consume-Post _ r c v = ground arith

abbrev PostParse : Parsed → Type 0
PostParse (ok (s, r, result, _)) = Inv s r × (result ≡ good → s ≡ expecting_newline_3)
PostParse (fault e) = e ≡ int_overflow

parse-PostParse : (s : State) (r : HttpRequest) (xs : Bytes) → Inv s r → PostParse (parse s r xs)
unfolding parse
parse-PostParse s r [] v = (v, λ e. cc)
parse-PostParse s r (c ∷ cs) v =
    round (consume s r c) (consume-Post s r c v) (λ s' r' w. parse-PostParse s' r' cs w)
  where
    round :
        (m : Consumed)
        → Post m
        → ((s' : State) (r' : HttpRequest) → Inv s' r' → PostParse (parse s' r' cs))
        → PostParse (m >>= λ (s', r', result). continue result s' r' cs (parse s' r' cs))
    round (fault e) w ih = w
    round (ok (s', r', good)) w ih = w
    round (ok (s', r', bad)) w ih = w
    round (ok (s', r', indeterminate)) w ih = ih s' r' w.0

initial-Inv : Inv method_start empty_request
initial-Inv = record {
  tokens = tt;
  started = tt;
  uri_chars = tt;
  major_fits = omega arith;
  minor_fits = omega arith;
  header_lines = tt;
  back = tt;
}

-- From the first byte on, whatever the input, the parser never takes `back()` of an empty vector:
-- the only undefined behaviour on its path is the overflow of a version.
pub parse-ne-back_of_empty :
    (input : Bytes) → parse method_start empty_request input ≢ fault back_of_empty
parse-ne-back_of_empty input e =
    ground (arith, parse-PostParse method_start empty_request input initial-Inv)

-- A `good` parse leaves the last state, and an invariant request whose method is not empty.
good-Inv :
    (input : Bytes) {rest : Bytes} {s : State} {r : HttpRequest}
    → parse method_start empty_request input ≡ ok (s, r, good, rest)
    → (s ≡ expecting_newline_3) × Inv expecting_newline_3 r
good-Inv input e = ground (arith, parse-PostParse method_start empty_request input initial-Inv)

-- A request that is accepted as `good` has a method that is a token, a URI with no space and no
-- control character, headers whose names are tokens and whose values have no control character
-- (so no line break), and versions below the bound.
pub parse-good-IsRequest :
    (input : Bytes) {rest : Bytes} {s : State} {r : HttpRequest}
    → parse method_start empty_request input ≡ ok (s, r, good, rest)
    → IsRequest r
      × (r.http_version_major + b'0' ≤ int_max)
      × (r.http_version_minor + b'0' ≤ int_max)
parse-good-IsRequest input e =
    let (_, v) = good-Inv input e in
    (
      record {
        method_ne_nil = v.started;
        method_tokens = v.tokens;
        uri_chars = v.uri_chars;
        header_lines = v.header_lines;
      },
      v.major_fits,
      v.minor_fits,
    )

-- Whatever bytes were accepted as the request `r`, folded header lines and leading zeros of the
-- versions included, the printed form of `r` is accepted as `r` too, before any `tail`.
pub parse-render-parse :
    (input tail : Bytes) {rest : Bytes} {s : State} {r : HttpRequest}
    → parse method_start empty_request input ≡ ok (s, r, good, rest)
    → parse method_start empty_request (render r tail) ≡ ok (s, r, good, tail)
parse-render-parse input tail {r} e =
    let (valid, major, minor) = parse-good-IsRequest input e in
    rw (good-Inv input e).0 (parse-render r tail valid major minor)

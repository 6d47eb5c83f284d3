-- ===== src/Tests/Parsing.antt =====
-- The parser's theorems at the request of test/tests.cpp.
use f.Prelude.{◌+◌, ◌≤◌, ◌≡◌, ◌≢◌, inl, refl, ◌++◌, [], ◌∷◌, arith}
use f.Bytes.{Bytes, codes}
use f.Http.{HttpRequest, empty_request}
use f.Parser.{
  parse, consume, is_not_token, is_ctl, is_digit, append_digit, update_back, method_start,
  expecting_newline_3, good, ok, fault, int_overflow, back_of_empty, int_max, continue, ◌>>=◌,
}
use f.Parser.Chunks.{parse-append}
use f.Parser.Runs.{token_test, token_test_sound, value_test, value_test_sound}
use f.Parser.RoundTrip.{render, IsHeader, IsRequest, parse-render, parse-render_overflow}
use f.Parser.Sound.{parse-ne-back_of_empty, parse-good-IsRequest, parse-render-parse}

abbrev pub sample : HttpRequest
sample = record {
  method = codes "GET";
  uri = codes "/hello.htm";
  http_version_major = 1;
  http_version_minor = 1;
  headers = (record { name = codes "Accept-Language"; value = codes "en-us" }) ∷ [];
}

language-IsHeader : IsHeader (record { name = codes "Accept-Language"; value = codes "en-us" })
unfolding token_test value_test is_not_token is_ctl
language-IsHeader = record {
  name_ne_nil = λ e. cc;
  name_tokens = token_test_sound (codes "Accept-Language") refl;
  value_chars = value_test_sound (codes "en-us") refl;
}

pub sample-IsRequest : IsRequest sample
unfolding token_test is_not_token is_ctl
sample-IsRequest = record {
  method_ne_nil = λ e. cc;
  method_tokens = token_test_sound (codes "GET") refl;
  uri_chars = ground arith;
  header_lines = (language-IsHeader, tt);
}

parse-render_example :
    parse method_start empty_request (render sample (codes "xy"))
    ≡ ok (expecting_newline_3, sample, good, codes "xy")
parse-render_example = parse-render sample (codes "xy") sample-IsRequest (omega arith) (omega arith)

-- A folded header line and a version with leading zeros.
abbrev folded : Bytes
folded = codes "GET /hello.htm HTTP/01.1\r\nAccept-Language: en\r\n -us\r\n\r\n"

parse-folded :
    parse method_start empty_request (folded ++ codes "xy")
    ≡ ok (expecting_newline_3, sample, good, codes "xy")
unfolding parse consume is_not_token is_ctl is_digit append_digit update_back
parse-folded = refl

parse-render-parse_example :
    parse method_start empty_request (render sample (codes "tail"))
    ≡ ok (expecting_newline_3, sample, good, codes "tail")
parse-render-parse_example = parse-render-parse (folded ++ codes "xy") (codes "tail") parse-folded

parse-good-IsRequest_example : IsRequest sample × (1 + b'0' ≤ int_max) × (1 + b'0' ≤ int_max)
parse-good-IsRequest_example = parse-good-IsRequest (folded ++ codes "xy") parse-folded

parse-ne-back_of_empty_example :
    parse method_start empty_request (codes "GET / HTTP/1.1\r\n folded") ≢ fault back_of_empty
parse-ne-back_of_empty_example = parse-ne-back_of_empty (codes "GET / HTTP/1.1\r\n folded")

parse-append_example :
    parse method_start empty_request (codes "GET /a" ++ codes " HTTP/1.1\r\n\r\n") ≡ (
      parse method_start empty_request (codes "GET /a") >>= λ (s, req, result, rest).
      continue result s req
        (rest ++ codes " HTTP/1.1\r\n\r\n")
        (parse s req (codes " HTTP/1.1\r\n\r\n")))
parse-append_example =
    parse-append method_start empty_request (codes "GET /a") (codes " HTTP/1.1\r\n\r\n")

-- A request in a version that no `int` can hold.
abbrev large : HttpRequest
large = record sample { http_version_major = 2147483648 }

large-IsRequest : IsRequest large
large-IsRequest = record {
  method_ne_nil = sample-IsRequest.method_ne_nil;
  method_tokens = sample-IsRequest.method_tokens;
  uri_chars = sample-IsRequest.uri_chars;
  header_lines = sample-IsRequest.header_lines;
}

parse-render_overflow_example :
    parse method_start empty_request (render large []) ≡ fault int_overflow
parse-render_overflow_example = parse-render_overflow large [] large-IsRequest (inl (omega arith))

-- ===== src/Parser/Tests.antt =====
-- The parser of lib/request_parser.cpp at a concrete input.
use f.Prelude.{◌≡◌, refl, ◌++◌, [], ◌∷◌}
use f.Bytes.{Bytes, codes}
use f.Http.{HttpRequest, empty_request}
use f.Parser.{
  parse, consume, is_not_token, is_ctl, is_digit, append_digit, update_back, method_start,
  expecting_newline_3, good, ok,
}

abbrev input : Bytes
input = codes "GET /hello.htm HTTP/1.1\r\nAccept-Language: en-us\r\n\r\n"

abbrev parsed : HttpRequest
parsed = record {
  method = codes "GET";
  uri = codes "/hello.htm";
  http_version_major = 1;
  http_version_minor = 1;
  headers = (record { name = codes "Accept-Language"; value = codes "en-us" }) ∷ [];
}

-- The case of test/tests.cpp, with bytes behind the request.
parse-input :
    parse method_start empty_request (input ++ codes "xy")
    ≡ ok (expecting_newline_3, parsed, good, codes "xy")
unfolding parse consume is_not_token is_ctl is_digit append_digit update_back
parse-input = refl

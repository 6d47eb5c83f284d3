-- ===== src/Tests/Redirects.antt =====
-- The theorems on redirections at concrete inputs.
use f.Prelude.{◌≡◌, refl, [], ◌∷◌, List, All}
use f.Bytes.{codes, equal}
use f.Http.{Header, HttpRequest, empty_request, tolower, find_header, get_header}
use f.Parser.{
  parse, consume, is_not_token, is_ctl, is_digit, append_digit, update_back, method_start,
  expecting_newline_3, good, ok,
}
use f.Parser.Runs.{token_test, token_test_sound, value_test, value_test_sound}
use f.Parser.RoundTrip.{IsHeader}
use f.Reply.{moved_permanently, stock_reply, not_found}
use f.Reply.Wire.{IsDelimited}
use f.Redirect.{item, return_handler}
use f.Redirect.Headers.{return_handler-IsDelimited}

abbrev pub host_request : HttpRequest
host_request = record {
  method = codes "GET";
  uri = codes "/a?b";
  http_version_major = 1;
  http_version_minor = 1;
  headers = (record { name = codes "HOST"; value = codes "example.org:80" }) ∷ [];
}

parse-host_request :
    parse method_start empty_request (codes "GET /a?b HTTP/1.1\r\nHOST: example.org:80\r\n\r\n")
    ≡ ok (expecting_newline_3, host_request, good, [])
unfolding parse consume is_not_token is_ctl is_digit append_digit update_back
parse-host_request = refl

pub host_request_header : get_header host_request (codes "host") ≡ codes "example.org:80"
unfolding get_header find_header tolower equal
host_request_header = refl

-- The `headers` of an entry that sends all clients to HTTPS.
abbrev to_https : List (List Header)
to_https =
    ((record { name = codes "Location"; value = codes "https://$host$request_uri" }) ∷ []) ∷ []

to_https-IsHeader : All (λ e. IsHeader (item e)) to_https
unfolding token_test value_test is_not_token is_ctl
to_https-IsHeader = (
  record {
    name_ne_nil = λ e. cc;
    name_tokens = token_test_sound (codes "Location") refl;
    value_chars = value_test_sound (codes "https://$host$request_uri") refl;
  },
  tt,
)

return_handler-IsDelimited_example :
    IsDelimited (return_handler moved_permanently to_https host_request (stock_reply not_found))
return_handler-IsDelimited_example =
    return_handler-IsDelimited (codes "GET /a?b HTTP/1.1\r\nHOST: example.org:80\r\n\r\n")
      moved_permanently to_https (stock_reply not_found) parse-host_request to_https-IsHeader

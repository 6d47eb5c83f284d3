-- ===== src/Tests/Suite.antt =====
-- The cases of test/tests.cpp: what it requires of the functions of the library holds of the
-- model. Where the suite records in a vector which handler is called, the handlers write it here.
use f.Prelude.{◌≡◌, refl, true, false, Option, some, none, List, [], ◌∷◌, ◌++◌}
use f.Bytes.{Bytes, codes, before, from, equal, has_dotdot}
use f.Bytes.Decimal.{to_string}
use f.Dynamic
use f.Dynamic.{
  DynamicContent, Handler, written, get, write, get_lines, add_params, handle_query_parameters,
}
use f.Http.{empty_request}
use f.Map.{insert, lookup}
use f.Mime.{extension_to_type}
use f.Parser
use f.Parser.{
  method_start, expecting_newline_3, good, parse, consume, is_not_token, is_digit, append_digit,
  update_back,
}
use f.Reply.{
  Status, not_found, ok, Handled, replied, raised, Tried, taken, framing, to_buffer, to_buffers,
  stock_content, stock_reply,
}
use f.Request.{add_queryvalue, resource, query}
use f.Router.{
  Resource, PathRouter, dynamic, add, is_refused, serve_resource, serve_if_match, serve_first,
  serve_found, route_path, route,
}
use f.Router.Each.{add_each}
use f.Router.Sorted.{insertion_sort}
use f.Tests.Replies.{site}
use f.Text.{split_string, match_pattern, match_from}
use f.Url.{url_decode, decode_from, isxdigit, read_hex, hex_digit}

splits :
    (split_string (codes "hello?world") b'?' ≡ (codes "hello", codes "world"))
    × (split_string (codes "helloworld") b'?' ≡ (codes "helloworld", []))
    × (split_string (codes "hello?world?again") b'?' ≡ (codes "hello", codes "world?again"))
    × (split_string ([]) b'?' ≡ ([], []))
    × (split_string (codes "?helloworld") b'?' ≡ ([], codes "helloworld"))
    × (split_string (codes "helloworld?") b'?' ≡ (codes "helloworld", []))
    × (split_string (codes "hello/world") b'/' ≡ (codes "hello", codes "world"))
unfolding split_string before from equal
splits = (refl, refl, refl, refl, refl, refl, refl)

matches :
    (match_pattern (codes "/user/profile") (codes "/user/profile") ≡ (true, []))
    × (match_pattern (codes "/user/:id/profile") (codes "/user/123/profile")
        ≡ (true, (codes "id", codes "123") ∷ []))
    × (match_pattern (codes "/user/:id/post/:postId") (codes "/user/123/post/456")
        ≡ (true, (codes "id", codes "123") ∷ (codes "postId", codes "456") ∷ []))
    × (match_pattern (codes "/user/:id/profile") (codes "/user/123/profile/")
        ≡ (true, (codes "id", codes "123") ∷ []))
unfolding match_pattern match_from before from insert equal
matches = (refl, refl, refl, refl)

mismatches :
    ((match_pattern (codes "/user/:id/profile") (codes "/user/123")).0 ≡ false)
    × ((match_pattern (codes "/user/:id/profile") (codes "/user/abc/settings")).0 ≡ false)
    × ((match_pattern ([]) (codes "/user/123/profile")).0 ≡ false)
    × ((match_pattern (codes "/user/:id/profile") ([])).0 ≡ false)
unfolding match_pattern match_from before from insert equal
mismatches = (refl, refl, refl, refl)

decodes :
    (url_decode (codes "HelloWorld") ≡ (true, codes "HelloWorld"))
    × (url_decode (codes "Hello+World") ≡ (true, codes "Hello World"))
    × (url_decode (codes "Hello%20World") ≡ (true, codes "Hello World"))
    × (url_decode (codes "%48%65%6C%6C%6F%20%57%6F%72%6C%64") ≡ (true, codes "Hello World"))
    × (url_decode ([]) ≡ (true, []))
unfolding url_decode decode_from isxdigit read_hex hex_digit
decodes = (refl, refl, refl, refl, refl)

refuses :
    ((url_decode (codes "Hello%2World")).0 ≡ false)
    × ((url_decode (codes "Hello%2GWorld")).0 ≡ false)
    × ((url_decode (codes "HelloWorld%")).0 ≡ false)
    × ((url_decode (codes "HelloWorld%2")).0 ≡ false)
unfolding url_decode decode_from isxdigit read_hex hex_digit
refuses = (refl, refl, refl, refl)

types :
    (extension_to_type (codes ".gif") ≡ codes "image/gif")
    × (extension_to_type (codes ".htm") ≡ codes "text/html")
    × (extension_to_type (codes ".html") ≡ codes "text/html")
    × (extension_to_type (codes ".jpg") ≡ codes "image/jpeg")
    × (extension_to_type (codes ".png") ≡ codes "image/png")
    × (extension_to_type (codes ".unk") ≡ codes "text/plain")
unfolding extension_to_type lookup equal
types = (refl, refl, refl, refl, refl, refl)

buffers :
    to_buffers (record {
      status = ok;
      headers = framing (codes "body") (extension_to_type (codes ".html"));
      content = codes "body";
    })
    ≡ codes "HTTP/1.0 200 OK\r\n"
      ∷ codes "Content-Length"
      ∷ codes ": "
      ∷ codes "4"
      ∷ codes "\r\n"
      ∷ codes "Content-Type"
      ∷ codes ": "
      ∷ codes "text/html"
      ∷ codes "\r\n"
      ∷ codes "\r\n"
      ∷ codes "body"
      ∷ []
unfolding to_buffers to_buffer to_string extension_to_type lookup equal
buffers = refl

parses :
    parse method_start empty_request
      (codes "GET /hello.htm HTTP/1.1\r\nAccept-Language: en-us\r\n\r\n")
    ≡ Parser.ok (
      expecting_newline_3,
      record {
        method = codes "GET";
        uri = codes "/hello.htm";
        http_version_major = 1;
        http_version_minor = 1;
        headers = (record { name = codes "Accept-Language"; value = codes "en-us" }) ∷ [];
      },
      good,
      [],
    )
unfolding parse consume is_not_token is_digit append_digit update_back
parses = refl

-- The handler of the cases on dynamic contents.
abbrev three_lines : DynamicContent
three_lines = get (λ req os. written (
    write
      (codes "Resource1: "
        ++ (resource req (codes "resource1")
            ++ codes "\n"
            ++ codes "Resource2: "
            ++ resource req (codes "resource2")
            ++ codes "\n"
            ++ codes "QueryParam: "
            ++ query req (codes "param")
            ++ codes "\n"))
      os))

-- The reply with this content and its length.
abbrev plain_text : Bytes → Bytes → Tried
plain_text length content = taken (
    replied (record {
      status = ok;
      headers =
          (record { name = codes "Content-Length"; value = length })
          ∷ (record { name = codes "Content-Type"; value = codes "text/plain" })
          ∷ [];
      content = content;
    }))

dynamic_contents :
    (Dynamic.serve_if_match three_lines
        (codes "/foo/:resource1/:resource2")
        (codes "/foo/res1/res2?param=value")
        empty_request
        (stock_reply not_found)
      ≡ plain_text (codes "50") (codes "Resource1: res1\nResource2: res2\nQueryParam: value\n"))
    × (Dynamic.serve_if_match three_lines
          (codes "/foo/:resource1/:resource2")
          (codes "/foo/res1/res2")
          empty_request
          (stock_reply not_found)
        ≡ plain_text (codes "45") (codes "Resource1: res1\nResource2: res2\nQueryParam: \n"))
    × (Dynamic.serve_if_match three_lines
          (codes "/foo/res")
          (codes "/foo/res?param=value")
          empty_request
          (stock_reply not_found)
        ≡ plain_text (codes "42") (codes "Resource1: \nResource2: \nQueryParam: value\n"))
unfolding Dynamic.serve_if_match match_pattern match_from split_string before from insert lookup
    equal get_lines add_params handle_query_parameters add_queryvalue resource query to_string
dynamic_contents = (refl, refl, refl)

-- The handlers of the router: each writes its number and the two parameters.
abbrev numbered : Bytes → Resource
numbered id = dynamic (
    get (λ req os.
      written
        (write (id ++ (codes " " ++ (resource req (codes "1") ++ resource req (codes "2")))) os)))

abbrev suite_resources : List (Bytes × Resource)
suite_resources =
    (codes "/foo/:1", numbered (codes "1"))
    ∷ (codes "/foo/bar/:1", numbered (codes "2"))
    ∷ (codes "/bar/:1/:2", numbered (codes "3"))
    ∷ (codes "/bar/foo/aaa/:1", numbered (codes "4"))
    ∷ (codes "/bar/foo/bbb/:1", numbered (codes "5"))
    ∷ (codes "/bar/foo/bbb/ccc/:1", numbered (codes "6"))
    ∷ (codes "/foo/bar/aaa/:1", numbered (codes "7"))
    ∷ []

unfoldable suite_router : PathRouter
unfolding add_each add insert lookup equal insertion_sort
suite_router = add_each insertion_sort suite_resources []

-- The status and the content of the reply to a method and a URI.
abbrev outcome_of : Handled → Option (Status × Bytes)
outcome_of (replied r) = some (r.status, r.content)
outcome_of (raised r) = none

abbrev asked : Bytes → Bytes → Option (Status × Bytes)
asked method uri = outcome_of (
    route site suite_router (record empty_request { method = method; uri = uri })
      (stock_reply not_found))

routed :
    (asked (codes "GET") (codes "/bar/foo/xxx") ≡ some (ok, codes "3 fooxxx"))
    × (asked (codes "GET") (codes "/bar/foo/aaa/zzz") ≡ some (ok, codes "4 zzz"))
    × (asked (codes "GET") (codes "/bar/foo/bbb/xxx") ≡ some (ok, codes "5 xxx"))
    × (asked (codes "GET") (codes "/bar/foo/bbb/ccc/zzz") ≡ some (ok, codes "6 zzz"))
    × (asked (codes "GET") (codes "/foo/bar/xxx") ≡ some (ok, codes "2 xxx"))
    × (asked (codes "GET") (codes "/foo/xxx") ≡ some (ok, codes "1 xxx"))
    × (asked (codes "GET") (codes "/foo/bar/aaa/zzz") ≡ some (ok, codes "7 zzz"))
unfolding route url_decode decode_from is_refused has_dotdot route_path serve_found serve_first
    serve_if_match serve_resource Dynamic.serve_if_match suite_router match_pattern match_from
    split_string before from insert lookup equal get_lines add_params handle_query_parameters
    resource
routed = (refl, refl, refl, refl, refl, refl, refl)

not_routed :
    (asked (codes "GET") (codes "/ddd") ≡ some (not_found, stock_content not_found))
    × (asked (codes "PUT") (codes "/bar/foo/xxx") ≡ some (not_found, stock_content not_found))
unfolding route url_decode decode_from is_refused has_dotdot route_path serve_found serve_first
    serve_if_match serve_resource Dynamic.serve_if_match suite_router match_pattern match_from
    split_string before from insert lookup equal stock_reply
not_routed = (refl, refl)

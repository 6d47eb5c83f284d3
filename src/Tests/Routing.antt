-- ===== src/Tests/Routing.antt =====
-- The router's theorems, for a router with a static and a dynamic content.
use f.Prelude.{◌<◌, ◌≡◌, ◌≢◌, inl, refl, [], ◌∷◌, List, arith, All, false, some}
use f.Bytes.{Bytes, codes, equal, has_dotdot, starts_with}
use f.Bytes.Spans.{Free}
use f.Http.{HttpRequest}
use f.Map.{lookup}
use f.Parser.{is_ctl}
use f.Parser.Runs.{IsValueChar, value_test, value_test_sound}
use f.Static.Files.{file_reply}
use f.Reply.{Reply, replied, stock_reply, not_found}
use f.Reply.Wire.{IsDelimited}
use f.Dynamic.{empty_stream, handled}
use f.Dynamic.Serve.{meant_request, WritesType}
use f.Text.Routes.{location}
use f.Dynamic
use f.Static
use f.Connection.{blank_reply}
use f.FileSystem.{join, relative_path}
use f.Text.{match_pattern, match_from, split_string}
use f.Url.{url_decode, decode_from}
use f.Url.RoundTrip.{url_encode}
use f.Router.{
  route_path, serve_found, serve_first, serve_if_match, serve_resource, static, dynamic,
  ResourceEntry, PathRouter, is_refused, lookup_method, route,
}
use f.Router.Sorted.{AllDescending, entry, insertion_sort, insertion_sort-IsSort}
use f.Router.Dispatch.{IsLongest, Reaches, route-IsLongest}
use f.Router.Replies.{route-IsDelimited, route-AllAgree}
use f.Router.EndToEnd.{target, IsTarget, entries_at, route-url_encode, route-ampersand}
use f.Examples.{rest_router}
use f.Examples.Hello.{hello_path, greeting, rest_router-hello}
use f.Tests.Texts.{
  kept, user_route, user_route-IsSegment, pairs, pairs-IsParam, greeter, user_path-no_query,
}
use f.Tests.Replies.{site, leaky, leaky-AgreeInside, docs, hello_request}

-- What two calls of `add` make, the longer location first.
abbrev pub entries : List ResourceEntry
entries = entry (codes "/user/:id") (dynamic greeter) ∷ entry (codes "/") (static docs) ∷ []

abbrev pub router : PathRouter
router = (codes "GET", entries) ∷ []

router-AllDescending : AllDescending router
router-AllDescending = ground arith

hello-Reaches : Reaches router hello_request (codes "/") entries
unfolding url_decode decode_from is_refused has_dotdot lookup equal
hello-Reaches = record { decodes = refl; allowed = refl; found = refl }

route-IsLongest_example :
    IsLongest site
      (codes "/")
      hello_request
      (stock_reply not_found)
      entries
      (route site router hello_request (stock_reply not_found))
route-IsLongest_example =
    route-IsLongest site (stock_reply not_found) router-AllDescending hello-Reaches

greeter-WritesType : WritesType greeter.handler
unfolding value_test is_ctl
greeter-WritesType req = value_test_sound (codes "application/json") refl

abbrev pub index_request : HttpRequest
index_request = record hello_request { uri = codes "/index.html" }

index_uri-IsValueChar : All IsValueChar index_request.uri
unfolding value_test is_ctl
index_uri-IsValueChar = value_test_sound (codes "/index.html") refl

get-ne-head : codes "GET" ≢ codes "HEAD"
get-ne-head = λ e. cc

abbrev pub index_reply : Reply
index_reply = file_reply (codes "/srv/index.html") (codes "hello")

pub index_replies : route site router index_request (blank_reply not_found) ≡ replied index_reply
unfolding route route_path url_decode decode_from is_refused has_dotdot serve_found lookup equal
    serve_first serve_if_match serve_resource Dynamic.serve_if_match Static.serve_if_match site
    match_pattern match_from split_string starts_with Static.serve_path join relative_path
    Static.serve_file Static.send_opened Static.send_file Static.read_loop
index_replies = refl

route-IsDelimited_example : IsDelimited index_reply
route-IsDelimited_example =
    route-IsDelimited site router index_request (blank_reply not_found) get-ne-head
      index_uri-IsValueChar ((greeter-WritesType, (tt, tt)), tt) index_replies

-- A request whose URI asks for what is outside of the root.
abbrev climbing : HttpRequest
climbing = record hello_request { uri = codes "/%2e%2e/etc/passwd" }

route-AllAgree_example :
    route site router climbing (stock_reply not_found)
    ≡ route leaky router climbing (stock_reply not_found)
route-AllAgree_example =
    route-AllAgree site leaky router climbing (stock_reply not_found)
      ((tt, (leaky-AgreeInside, tt)), tt)

pairs-IsTarget : IsTarget user_route [] pairs
unfolding is_refused has_dotdot
pairs-IsTarget = record {
  segments = user_route-IsSegment;
  is_end = inl refl;
  no_query = user_path-no_query;
  params = pairs-IsParam;
  absolute = refl;
  bytes = ground arith;
}

abbrev encoded_request : HttpRequest
encoded_request = record hello_request { uri = url_encode kept (target user_route [] pairs) }

router_found :
    lookup (lookup_method (codes "GET")) router
    ≡ some (entries_at [] (location user_route) greeter (entry (codes "/") (static docs) ∷ []))
unfolding lookup equal
router_found = refl

route-url_encode_example :
    route site router encoded_request (stock_reply not_found)
    ≡ handled
        (stock_reply not_found)
        (greeter.handler (meant_request encoded_request user_route pairs) empty_stream)
route-url_encode_example =
    route-url_encode kept site router greeter user_route [] pairs encoded_request
      (stock_reply not_found) [] (entry (codes "/") (static docs) ∷ []) refl refl pairs-IsTarget
      refl router_found tt

-- A search for `R&D`.
abbrev front : List (Bytes × Bytes)
front = (codes "q", codes "R") ∷ []

front-IsTarget : IsTarget user_route [] front
unfolding is_refused has_dotdot
front-IsTarget = record {
  segments = user_route-IsSegment;
  is_end = inl refl;
  no_query = user_path-no_query;
  params = ground arith;
  absolute = refl;
  bytes = ground arith;
}

abbrev ampersand : List (Bytes × Bytes)
ampersand = (codes "q", codes "R&D") ∷ []

abbrev ampersand_request : HttpRequest
ampersand_request = record hello_request { uri = url_encode kept (target user_route [] ampersand) }

back-Free : Free b'&' (codes "D") × Free b'=' (codes "D")
back-Free = ground arith

back-ne-nil : codes "D" ≢ []
back-ne-nil = λ e. cc

ampersand_allowed : is_refused (target user_route [] ampersand) ≡ false
unfolding is_refused has_dotdot
ampersand_allowed = refl

ampersand_bytes : All (λ c. c < 256) (target user_route [] ampersand)
ampersand_bytes = ground arith

route-ampersand_example :
    route site router ampersand_request (stock_reply not_found)
    ≡ handled (stock_reply not_found) (
        greeter.handler
          (meant_request ampersand_request user_route
            ((codes "q", codes "R") ∷ (codes "D", []) ∷ []))
          empty_stream)
route-ampersand_example =
    route-ampersand kept site router greeter user_route [] (codes "q") (codes "R") (codes "D")
      ampersand_request (stock_reply not_found) [] (entry (codes "/") (static docs) ∷ []) refl refl
      front-IsTarget back-Free.0 back-Free.1 back-ne-nil refl ampersand_allowed ampersand_bytes
      router_found tt

abbrev ada_request : HttpRequest
ada_request = record hello_request { uri = url_encode kept (hello_path (codes "Ada L")) }

ada : codes "Ada L" ≢ []
ada = λ e. cc

ada_allowed :
    (is_refused (hello_path (codes "Ada L")) ≡ false)
    × (lookup_method ada_request.method ≡ codes "GET")
unfolding is_refused has_dotdot equal
ada_allowed = (refl, refl)

rest_router-hello_example :
    route site (rest_router insertion_sort) ada_request (stock_reply not_found)
    ≡ replied (greeting (codes "Ada L"))
rest_router-hello_example =
    rest_router-hello kept site (codes "Ada L") ada_request (stock_reply not_found)
      insertion_sort-IsSort refl refl ada (ground arith) (ground arith) (ground arith) ada_allowed.0
      ada_allowed.1 refl

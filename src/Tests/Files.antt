-- ===== src/Tests/Files.antt =====
-- The theorems on a server that the subcommand `serve` starts at concrete requests.
use f.Prelude.{◌≡◌, refl, map, true, false, none, some, List, [], ◌∷◌, arith, flatten}
use f.Bytes.{Bytes, codes, equal, has_dotdot}
use f.Bytes.Decimal.{to_string}
use f.Connection.{plain, idle, deliver}
use f.Connection.Stream.{reading_connection}
use f.Http.{HttpRequest}
use f.Json.{ok}
use f.Listen.{listen, call_all}
use f.Main.{Instance, build_simple_server, simple_router, handler_of}
use f.Main.Files.{
  answering, served, file_path, build_simple_server-deliver, build_simple_server-barred,
}
use f.Parser
use f.Parser.{fault, int_overflow, is_not_token, is_ctl}
use f.Parser.RoundTrip.{IsRequest, render}
use f.Reply.{not_found}
use f.Router.{is_refused, lookup_method}
use f.FileSystem.{regular, barred, join, relative_path}
use f.Config.{routes}
use f.Router.Sorted.{insertion_sort, insertion_sort-IsSort}
use f.Static.Files.{file_reply}
use f.Url.{url_decode, decode_from}
use f.Tests.Configs.{Value, values, network}
use f.Tests.Parsing.{sample, sample-IsRequest}
use f.Tests.Replies.{site}

abbrev index_request : HttpRequest
index_request = record sample { uri = codes "/index.html" }

index_request-IsRequest : IsRequest index_request
unfolding is_ctl
index_request-IsRequest = record {
  method_ne_nil = sample-IsRequest.method_ne_nil;
  method_tokens = sample-IsRequest.method_tokens;
  uri_chars = ground arith;
  header_lines = sample-IsRequest.header_lines;
}

index_decodes :
    (url_decode index_request.uri ≡ (true, codes "/index.html"))
    × (is_refused (codes "/index.html") ≡ false)
unfolding url_decode decode_from is_refused has_dotdot
index_decodes = (refl, refl)

index_file :
    site (file_path (codes "/srv") (codes "index.html")) ≡ some (regular (some (codes "hello")))
unfolding site join relative_path equal
index_file = refl

abbrev simple_instance : Instance Value
simple_instance = record {
  settings = none;
  source = routes (simple_router insertion_sort (codes "/srv"));
  port = codes "80";
  address = codes "0.0.0.0";
}

simple_built :
    build_simple_server values network insertion_sort (codes "/srv") (codes "0.0.0.0") 80 0
    ≡ ok (simple_instance, 6)
unfolding build_simple_server listen call_all to_string
simple_built = refl

abbrev index_pieces : List Bytes
index_pieces = render index_request (codes "xy") ∷ []

index_flatten : flatten index_pieces ≡ render index_request (codes "xy")
unfolding flatten to_string
index_flatten = refl

build_simple_server-deliver_example :
    deliver
      (handler_of values site simple_instance.source)
      index_pieces
      (reading_connection not_found plain)
    ≡ Parser.ok (
        answering not_found index_request
          (file_reply (file_path (codes "/srv") (codes "index.html")) (codes "hello")))
build_simple_server-deliver_example =
    build_simple_server-deliver values network site (codes "/srv") (codes "0.0.0.0") 80 0 not_found
      index_request (codes "index.html") (codes "hello") (codes "xy") index_pieces
      insertion_sort-IsSort simple_built index_request-IsRequest (omega arith) (omega arith)
      index_flatten refl index_decodes.0 index_decodes.1 index_file

abbrev locked_request : HttpRequest
locked_request = record index_request { uri = codes "/locked" }

locked_request-IsRequest : IsRequest locked_request
unfolding is_ctl
locked_request-IsRequest = record {
  method_ne_nil = sample-IsRequest.method_ne_nil;
  method_tokens = sample-IsRequest.method_tokens;
  uri_chars = ground arith;
  header_lines = sample-IsRequest.header_lines;
}

locked_decodes :
    (url_decode locked_request.uri ≡ (true, codes "/locked"))
    × (is_refused (codes "/locked") ≡ false)
unfolding url_decode decode_from is_refused has_dotdot
locked_decodes = (refl, refl)

locked_file : site (file_path (codes "/srv") (codes "locked")) ≡ some barred
unfolding site join relative_path equal
locked_file = refl

locked_method : lookup_method locked_request.method ≡ codes "GET"
unfolding equal
locked_method = refl

-- One read for each byte.
locked_flatten : flatten (map (λ c. c ∷ []) (render locked_request [])) ≡ render locked_request []
unfolding flatten to_string
locked_flatten = refl

build_simple_server-barred_example :
    deliver
      (handler_of values site simple_instance.source)
      (map (λ c. c ∷ []) (render locked_request []))
      (reading_connection not_found plain)
    ≡ Parser.ok (record (served not_found locked_request) { pending = idle; outgoing = [] })
build_simple_server-barred_example =
    build_simple_server-barred values network site (codes "/srv") (codes "0.0.0.0") 80 0 not_found
      locked_request (codes "locked") [] (map (λ c. c ∷ []) (render locked_request []))
      insertion_sort-IsSort simple_built locked_request-IsRequest (omega arith) (omega arith)
      locked_flatten locked_method locked_decodes.0 locked_decodes.1 locked_file

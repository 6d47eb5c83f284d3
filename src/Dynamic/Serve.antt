-- ===== src/Dynamic/Serve.antt =====
-- What `serve_if_match` hands to the handler, and the reply that it makes.
use f.Prelude.{◌≡◌, List, [], ◌∷◌, ◌++◌, All}
use f.Bytes.{Bytes}
use f.Bytes.Spans.{Free}
use f.Http.{HttpRequest}
use f.Map.{insert_all}
use f.Parser.Runs.{IsValueChar}
use f.Reply.{Reply, IfReplied, taken}
use f.Reply.Wire.{IsDelimited, Served, Served-if, framing-IsDelimited}
use f.Request.{Request}
use f.Text.{split_string, match_pattern}
use f.Text.Split.{split_string-append}
use f.Text.Routes.{Segment, location, path, bindings, IsSegment, IsEnd, match_pattern-path}
use f.Dynamic.{
  ResponseStream, Outcome, written, thrown, handled, DynamicContent, Handler, empty_stream,
  handler_request, serve_if_match,
}
use f.Dynamic.Query.{query_text, IsParam, handle_query_parameters-query_text}

-- The request that is meant by a path of these segments with these parameters behind it.
abbrev pub meant_request : HttpRequest → List Segment → List (Bytes × Bytes) → Request
meant_request http_req ss kvs = record {
  orig_request = http_req;
  resources = insert_all (bindings ss) [];
  querystring = insert_all kvs [];
}

-- The request that is meant by a path of these segments with this text behind it.
abbrev pub text_request : HttpRequest → List Segment → Bytes → Request
text_request http_req ss text = handler_request http_req (insert_all (bindings ss) []) text

pub serve_if_match-path_text :
    (d : DynamicContent) (ss : List Segment) (end text : Bytes) (http_req : HttpRequest)
    (rep : Reply) {r : Request}
    → All IsSegment ss
    → IsEnd end
    → Free b'?' (path ss end)
    → text_request http_req ss text ≡ r
    → serve_if_match d (location ss) (path ss end ++ b'?' ∷ text) http_req rep
      ≡ taken (handled rep (d.handler r empty_stream))
unfolding serve_if_match
serve_if_match-path_text d ss end text http_req rep hs he hp hr = rw (
  split_string-append b'?' (path ss end) text hp,
  serve_if_match,
  match_pattern-path ss end hs he,
  hr,
)

-- A handler at the location of some segments is called for each path that is built from them, with
-- a query text behind it: it gets the values of the path's parameters and of the query, and the
-- reply is what it has written, with the status and the type that it has chosen, or its exception
-- leaves the content.
pub serve_if_match-path :
    (d : DynamicContent) (ss : List Segment) (end : Bytes) (kvs : List (Bytes × Bytes))
    (http_req : HttpRequest) (rep : Reply)
    → All IsSegment ss
    → IsEnd end
    → Free b'?' (path ss end)
    → All IsParam kvs
    → serve_if_match d (location ss) (path ss end ++ b'?' ∷ query_text kvs) http_req rep
      ≡ taken (handled rep (d.handler (meant_request http_req ss kvs) empty_stream))
serve_if_match-path d ss end kvs http_req rep hs he hp hk =
    serve_if_match-path_text d ss end (query_text kvs) http_req rep hs he hp
      (handle_query_parameters-query_text kvs _ hk)

-- The types that a handler chooses have no control character, as those of the manipulators.
abbrev pub IfWritten : (ResponseStream → Type 0) → Outcome → Type 0
IfWritten P (written ss) = P ss
IfWritten P thrown = Unit

abbrev pub WritesType : Handler → Type 0
WritesType h =
    (req : Request) → IfWritten (λ ss. All IsValueChar ss.content_type) (h req empty_stream)

handled-IsDelimited :
    (rep : Reply) (o : Outcome)
    → IfWritten (λ ss. All IsValueChar ss.content_type) o
    → IfReplied IsDelimited (handled rep o)
handled-IsDelimited rep (written ss) h = framing-IsDelimited ss.status ss.text ss.content_type h
handled-IsDelimited rep thrown h = tt

-- A location that does not match leaves the reply as it was; one that does gives a reply whose
-- header lines can be read back and whose stated length is that of the content, if the handler
-- returns, and writes no control character into the type.
pub serve_if_match-Served :
    (d : DynamicContent) (place request_path : Bytes) (http_req : HttpRequest) (rep : Reply)
    → WritesType d.handler
    → Served rep (serve_if_match d place request_path http_req rep)
unfolding serve_if_match
serve_if_match-Served d place request_path http_req rep w =
    let (resources, text) = split_string request_path b'?' in
    let (matches, params) = match_pattern place resources in
    let req = handler_request http_req params text in
    Served-if matches rep (handled rep (d.handler req empty_stream))
      (handled-IsDelimited rep (d.handler req empty_stream) (w req))

-- ===== src/Router/EndToEnd.antt =====
-- From the bytes of a URI to the request that a handler gets.
use f.Prelude.{ℕ, Bool, ◌<◌, ◌≡◌, ◌≢◌, refl, ◌∙◌, false, some, List, [], ◌∷◌, ◌++◌, All}
use f.Bytes.{Bytes}
use f.Bytes.Spans.{Free}
use f.FileSystem.{FileSystem}
use f.Http.{HttpRequest}
use f.Map.{lookup}
use f.Reply.{Handled, taken, Reply}
use f.Url.RoundTrip.{url_encode, url_decode-url_encode}
use f.Text.Routes.{Segment, location, path, IsSegment, IsEnd}
use f.Dynamic
use f.Dynamic.{DynamicContent, empty_stream, handled}
use f.Dynamic.Query.{query_text, IsParam, handle_query_parameters-ampersand}
use f.Dynamic.Serve.{meant_request, serve_if_match-path, serve_if_match-path_text}
use f.Router.{
  dynamic, ResourceEntry, PathRouter, serve_if_match, serve_resource, serve_first, is_refused,
  lookup_method, route,
}
use f.Router.Sorted.{entry}
use f.Router.Dispatch.{Refuses, Reaches, route-serve_first, serve_first_served, serve_first_refused}

-- The target of a request: a path of these segments, and a query text.
abbrev pub target : List Segment → Bytes → List (Bytes × Bytes) → Bytes
target ss end kvs = path ss end ++ b'?' ∷ query_text kvs

-- What the client and the router's user have to keep to.
pub record IsTarget (ss : List Segment) (end : Bytes) (kvs : List (Bytes × Bytes)) : Type 0 where
  pub segments : All IsSegment ss
  pub is_end : IsEnd end
  pub no_query : Free b'?' (path ss end)
  pub params : All IsParam kvs
  pub absolute : is_refused (target ss end kvs) ≡ false
  pub bytes : All (λ c. c < 256) (target ss end kvs)

serve_first-append :
    (fs : FileSystem) (p : Bytes) (req : HttpRequest) (rep : Reply) (longer es : List ResourceEntry)
    → All (Refuses fs p req rep) longer
    → serve_first fs (longer ++ es) p req rep ≡ serve_first fs es p req rep
serve_first-append fs p req rep [] es h = refl
serve_first-append fs p req rep (e ∷ longer) es (q, h) =
    serve_first_refused fs p req rep e (longer ++ es) q
    ∙ serve_first-append fs p req rep longer es h

-- The entry for a dynamic content behind entries that refuse the path, and before others.
abbrev pub entries_at :
    List ResourceEntry → Bytes → DynamicContent → List ResourceEntry → List ResourceEntry
entries_at longer place d others = longer ++ entry place (dynamic d) ∷ others

route-dynamic :
    (fs : FileSystem) {resources : PathRouter} (d : DynamicContent) (place : Bytes) {p : Bytes}
    (longer others : List ResourceEntry) {req : HttpRequest} (rep : Reply) {r : Handled}
    → Reaches resources req p (entries_at longer place d others)
    → All (Refuses fs p req rep) longer
    → Dynamic.serve_if_match d place p req rep ≡ taken r
    → route fs resources req rep ≡ r
route-dynamic fs d place {p} longer others {req} rep reaches refused served =
    route-serve_first fs rep reaches
    ∙ serve_first-append fs p req rep longer (entry place (dynamic d) ∷ others) refused
    ∙ serve_first_served fs p req rep (entry place (dynamic d)) others
        (unfold serve_if_match serve_resource in served)

-- A request whose URI is the percent-encoding, with `%` and `+` encoded, of a target that keeps to
-- `IsTarget` is answered by the dynamic content at the location of its segments, if the entries
-- before it refuse the path: its handler gets the values of the path's parameters and of the query
-- as they were before the encoding, and what it writes is the reply, or its exception leaves the
-- router.
pub route-url_encode :
    (kept : ℕ → Bool) (fs : FileSystem) (resources : PathRouter) (d : DynamicContent)
    (ss : List Segment) (end : Bytes) (kvs : List (Bytes × Bytes)) (req : HttpRequest) (rep : Reply)
    (longer others : List ResourceEntry)
    → kept b'%' ≡ false
    → kept b'+' ≡ false
    → IsTarget ss end kvs
    → req.uri ≡ url_encode kept (target ss end kvs)
    → lookup (lookup_method req.method) resources ≡ some (entries_at longer (location ss) d others)
    → All (Refuses fs (target ss end kvs) req rep) longer
    → route fs resources req rep ≡ handled rep (d.handler (meant_request req ss kvs) empty_stream)
route-url_encode kept fs resources d ss end kvs req rep longer others percent plus t uri found
      refused =
    route-dynamic fs d (location ss) longer others rep
      (record {
        decodes = rw uri (url_decode-url_encode kept percent plus (target ss end kvs) t.bytes);
        allowed = t.absolute;
        found = found;
      })
      refused (serve_if_match-path d ss end kvs req rep t.segments t.is_end t.no_query t.params)

-- A target's only parameter, whose value holds one encoded `&` with something behind it that has no
-- `=`, is cut there, since the URI is decoded before it is split: the handler gets the part before
-- the `&` as the value, and the part behind it as the key of one more parameter, which is empty.
pub route-ampersand :
    (kept : ℕ → Bool) (fs : FileSystem) (resources : PathRouter) (d : DynamicContent)
    (ss : List Segment) (end key front back : Bytes) (req : HttpRequest) (rep : Reply)
    (longer others : List ResourceEntry)
    → kept b'%' ≡ false
    → kept b'+' ≡ false
    → IsTarget ss end ((key, front) ∷ [])
    → Free b'&' back
    → Free b'=' back
    → back ≢ []
    → req.uri ≡ url_encode kept (target ss end ((key, front ++ b'&' ∷ back) ∷ []))
    → is_refused (target ss end ((key, front ++ b'&' ∷ back) ∷ [])) ≡ false
    → All (λ c. c < 256) (target ss end ((key, front ++ b'&' ∷ back) ∷ []))
    → lookup (lookup_method req.method) resources ≡ some (entries_at longer (location ss) d others)
    → All (Refuses fs (target ss end ((key, front ++ b'&' ∷ back) ∷ [])) req rep) longer
    → route fs resources req rep
      ≡ handled rep (d.handler (meant_request req ss ((key, front) ∷ (back, []) ∷ [])) empty_stream)
route-ampersand kept fs resources d ss end key front back req rep longer others percent plus t fa fe
      ne uri ok bytes found refused =
    route-dynamic fs d (location ss) longer others rep
      (record {
        decodes = rw uri (url_decode-url_encode kept percent plus _ bytes);
        allowed = ok;
        found = found;
      })
      refused
      (serve_if_match-path_text d ss end (query_text ((key, front ++ b'&' ∷ back) ∷ [])) req rep
        t.segments t.is_end t.no_query
        (handle_query_parameters-ampersand key front back _ t.params.0 fa fe ne))

-- ===== src/Examples/Hello.antt =====
-- The router of rest.cpp, asked for `/hello/<name>`.
use f.Prelude.{
  append-nil, ℕ, ◌<◌, ◌≡◌, ◌≢◌, ◌⊎◌, inl, inr, refl, subst, Bool, true, false, List, [], ◌∷◌, ◌++◌,
  All, arith, All-append,
}
use f.Bytes.{Bytes, codes, equal}
use f.Bytes.Spans.{Free}
use f.FileSystem.{FileSystem}
use f.Http.{HttpRequest}
use f.Reply.{Reply, Handled, replied, passed, taken}
use f.Dynamic
use f.Map.{Map, insert, lookup}
use f.Request.{resource}
use f.Text.{match_pattern, match_from}
use f.Text.Routes.{Segment, fixed, param, IsSegment, match_pattern-path}
use f.Text.Split.{split_string_absent}
use f.Dynamic.{
  handle_query_parameters, get_lines, add_params, get, DynamicContent, handler_request, write,
  empty_stream, reply_of, handled,
}
use f.Router.{
  dynamic, ResourceEntry, serve_if_match, serve_resource, is_refused, lookup_method, route,
}
use f.Router.Dispatch.{IsLongest-only, Refuses, Serves, IsLongest}
use f.Router.Each.{entries_of, add_each-IsLongest}
use f.Router.Sorted.{entry, IsSort}
use f.Url.RoundTrip.{url_encode, url_decode-url_encode}
use f.Examples.{hello_name_handler, rest_resources, rest_router}

abbrev pub hello_path : Bytes → Bytes
hello_path name = codes "/hello/" ++ name

abbrev hello_segments : Bytes → List Segment
hello_segments name = fixed (codes "hello") ∷ param (codes "name") name ∷ []

hello_segments-IsSegment :
    (name : Bytes) → Free b'/' name → name ≢ [] → All IsSegment (hello_segments name)
hello_segments-IsSegment name h ne = ground arith

hello_match :
    (name : Bytes)
    → Free b'/' name
    → name ≢ []
    → match_pattern (codes "/hello/:name") (hello_path name) ≡ (true, (codes "name", name) ∷ [])
unfolding insert
hello_match name h ne =
    subst
      (λ p.
        match_pattern (codes "/hello/:name") (codes "/hello/" ++ p)
        ≡ (true, (codes "name", name) ∷ []))
      (append-nil name)
      (match_pattern-path (hello_segments name) [] (hello_segments-IsSegment name h ne) (inl refl))

abbrev pub greeting : Bytes → Reply
greeting name = reply_of (write ((codes "Hello, " ++ name) ++ codes "!\n") empty_stream)

module _ (d : DynamicContent) (place path : Bytes) (req : HttpRequest) (rep : Reply) where
  -- A path with no query is served with the parameters of its match, or not at all.
  dynamic_refused :
      Free b'?' path
      → (match_pattern place path).0 ≡ false
      → Dynamic.serve_if_match d place path req rep ≡ passed rep
  unfolding Dynamic.serve_if_match
  dynamic_refused h e = rw (split_string_absent b'?' path h, Dynamic.serve_if_match, e) refl

  dynamic_served :
      (m : Map)
      → Free b'?' path
      → match_pattern place path ≡ (true, m)
      → Dynamic.serve_if_match d place path req rep
        ≡ taken (handled rep (d.handler (handler_request req m []) empty_stream))
  unfolding Dynamic.serve_if_match
  dynamic_served m h e = rw (split_string_absent b'?' path h, Dynamic.serve_if_match, e) refl

module _ (fs : FileSystem) (c : ℕ) (name : Bytes) (req : HttpRequest) (rep : Reply) where
  hello_name-Serves :
      Free b'/' (c ∷ name)
      → Free b'?' (hello_path (c ∷ name))
      → Serves fs
          (hello_path (c ∷ name))
          req
          rep
          (replied (greeting (c ∷ name)))
          (entry (codes "/hello/:name") (dynamic (get hello_name_handler)))
  unfolding serve_if_match serve_resource hello_name_handler resource lookup equal
      handle_query_parameters get_lines add_params
  hello_name-Serves slash query =
      dynamic_served (get hello_name_handler) (codes "/hello/:name") _ req rep _ query
        (hello_match (c ∷ name) slash (λ q. cc))

  -- What the entries of the router do with the path.
  hello_entries :
      Free b'/' (c ∷ name)
      → Free b'?' (hello_path (c ∷ name))
      → All
          (λ x.
            Refuses fs (hello_path (c ∷ name)) req rep x
            ⊎ Serves fs (hello_path (c ∷ name)) req rep (replied (greeting (c ∷ name))) x)
          (entries_of (codes "GET") rest_resources)
  unfolding equal serve_if_match serve_resource match_pattern match_from
  hello_entries slash query = (
    inl (dynamic_refused _ (codes "/version") _ req rep query refl),
    (
      inl (dynamic_refused _ (codes "/version_j") _ req rep query refl),
      (
        inl (dynamic_refused _ (codes "/bad") _ req rep query refl),
        (
          inl (dynamic_refused _ (codes "/hello") _ req rep query refl),
          (
            inr (hello_name-Serves slash query),
            (
              inl (dynamic_refused _ (codes "/print") _ req rep query refl),
              (inl (dynamic_refused _ (codes "/greet/:name/:country") _ req rep query refl), tt),
            ),
          ),
        ),
      ),
    ),
  )

  answered :
      {r : Handled}
      → Free b'/' (c ∷ name)
      → Free b'?' (hello_path (c ∷ name))
      → IsLongest fs (hello_path (c ∷ name)) req rep (entries_of (codes "GET") rest_resources) r
      → r ≡ replied (greeting (c ∷ name))
  unfolding equal
  answered slash query =
      IsLongest-only fs (hello_path (c ∷ name)) req rep (replied (greeting (c ∷ name))) _
        (hello_entries slash query) (λ a. cc (a.1.1.1.1.0, hello_name-Serves slash query))

-- Whatever sort keeps the order of the router, a GET or HEAD of the percent-encoding, with `%` and
-- `+` encoded, of `/hello/` and a name is answered by the greeting of this name: for a name of bytes
-- that is not empty, has no slash and no question mark, and has no `..` in it.
pub rest_router-hello :
    (kept : ℕ → Bool) (fs : FileSystem) {sort : List ResourceEntry → List ResourceEntry}
    (name : Bytes) (req : HttpRequest) (rep : Reply)
    → IsSort sort
    → kept b'%' ≡ false
    → kept b'+' ≡ false
    → name ≢ []
    → Free b'/' name
    → Free b'?' name
    → All (λ c. c < 256) name
    → is_refused (hello_path name) ≡ false
    → lookup_method req.method ≡ codes "GET"
    → req.uri ≡ url_encode kept (hello_path name)
    → route fs (rest_router sort) req rep ≡ replied (greeting name)
unfolding rest_router
rest_router-hello kept fs [] req rep valid percent plus ne slash query bytes allowed method uri =
    absurd (ne refl)
rest_router-hello kept fs (c ∷ name) req rep valid percent plus ne slash query bytes allowed method
      uri =
    answered fs c name req rep slash
      (All-append (λ x. x ≢ b'?') (codes "/hello/") (c ∷ name) (ground arith) query)
      (add_each-IsLongest fs rest_resources req rep valid
        (rw uri (
          url_decode-url_encode kept percent plus (hello_path (c ∷ name))
            (All-append (λ x. x < 256) (codes "/hello/") (c ∷ name) (ground arith) bytes)))
        allowed method)

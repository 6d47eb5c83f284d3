-- ===== src/Router/Replies.antt =====
-- What every reply of the router is like, and what of the file system it depends on.
use f.Prelude.{
  ◌≡◌, ◌≢◌, refl, ap, ◌∙◌, false, Option, none, some, List, [], ◌∷◌, All, arith, Bool-cases, inl,
  inr,
}
use f.Bytes.{Bytes, codes, has_dotdot}
use f.FileSystem.{FileSystem}
use f.Http.{HttpRequest}
use f.Map.{lookup, lookup-All}
use f.Parser.Runs.{IsValueChar}
use f.Reply.{replied, IfReplied, Tried, passed, taken, Reply, bad_request, not_found}
use f.Reply.Wire.{IsDelimited, Served, stock_reply-IsDelimited}
use f.Reply.Outcomes.{IfReplied-if, IfReplied-sound}
use f.Static.Containment.{AgreeInside, serve_if_match-AgreeInside}
use f.Static.Replies
use f.Dynamic.Serve
use f.Dynamic.Serve.{WritesType}
use f.Router.{
  Resource, static, dynamic, ResourceEntry, PathRouter, serve_resource, serve_if_match, serve_first,
  serve_found, is_refused, lookup_method, route_path, route,
}
use f.Url.{url_decode}

-- A dynamic content whose handler writes no control character into the type of its reply.
abbrev pub IsTame : Resource → Type 0
IsTame (static s) = Unit
IsTame (dynamic d) = WritesType d.handler

abbrev pub AllTame : PathRouter → Type 0
AllTame resources = All (λ m. All (λ e. IsTame e.handler) m.1) resources

module _ (fs : FileSystem) (path : Bytes) (req : HttpRequest) where
  serve_resource-Served :
      (resource : Resource) (location : Bytes) (rep : Reply)
      → req.method ≢ codes "HEAD"
      → All IsValueChar req.uri
      → IsTame resource
      → Served rep (serve_resource fs resource location path req rep)
  unfolding serve_resource
  serve_resource-Served (static s) location rep ne h t =
      Replies.serve_if_match-Served fs s location path req rep ne h
  serve_resource-Served (dynamic d) location rep ne h t =
      Serve.serve_if_match-Served d location path req rep t

  serve_first-IsDelimited :
      (es : List ResourceEntry) (rep : Reply)
      → req.method ≢ codes "HEAD"
      → All IsValueChar req.uri
      → All (λ e. IsTame e.handler) es
      → IfReplied IsDelimited (serve_first fs es path req rep)
  unfolding serve_first serve_if_match
  serve_first-IsDelimited [] rep ne h t = stock_reply-IsDelimited not_found
  serve_first-IsDelimited (e ∷ es) rep ne h (p, t) =
      round (serve_resource fs e.handler e.location path req rep)
        (serve_resource-Served e.handler e.location rep ne h p)
        (λ rep'. serve_first-IsDelimited es rep' ne h t)
    where
      round :
          (result : Tried)
          → Served rep result
          → ((rep' : Reply) → IfReplied IsDelimited (serve_first fs es path req rep'))
          → IfReplied IsDelimited
              (elim result [ taken r ↦ r | passed r ↦ serve_first fs es path req r ])
      round (taken r) s ih = s
      round (passed r) s ih = ih r

  serve_found-IsDelimited :
      (found : Option (List ResourceEntry)) (rep : Reply)
      → req.method ≢ codes "HEAD"
      → All IsValueChar req.uri
      → ((es : List ResourceEntry) → found ≡ some es → All (λ e. IsTame e.handler) es)
      → IfReplied IsDelimited (serve_found fs found path req rep)
  unfolding serve_found
  serve_found-IsDelimited none rep ne h t = stock_reply-IsDelimited not_found
  serve_found-IsDelimited (some es) rep ne h t = serve_first-IsDelimited es rep ne h (t es refl)

-- Every reply of the router to a request with a method other than HEAD, and with no control
-- character in its URI, can be read back and states its length, the error replies included, if no
-- handler writes a control character into the type of its reply.
pub route-IsDelimited :
    (fs : FileSystem) (resources : PathRouter) (req : HttpRequest) (rep : Reply) {r : Reply}
    → req.method ≢ codes "HEAD"
    → All IsValueChar req.uri
    → AllTame resources
    → route fs resources req rep ≡ replied r
    → IsDelimited r
unfolding route route_path
route-IsDelimited fs resources req rep ne h t e =
    let (decoded, path) = url_decode req.uri in
    IfReplied-sound IsDelimited (route fs resources req rep)
      (IfReplied-if IsDelimited decoded _ _
        (IfReplied-if IsDelimited (is_refused path) _ _ (stock_reply-IsDelimited bad_request) (
          serve_found-IsDelimited fs path req (lookup (lookup_method req.method) resources) rep ne h
            (λ es e. lookup-All (λ _ hs. All (λ x. IsTame x.handler) hs) _ resources t e)))
        (stock_reply-IsDelimited bad_request))
      e

-- Two file systems that agree below the root of a static content.
abbrev pub Agrees : FileSystem → FileSystem → Resource → Type 0
Agrees fs fs' (static s) = AgreeInside s.doc_root fs fs'
Agrees fs fs' (dynamic d) = Unit

abbrev pub AllAgree : FileSystem → FileSystem → PathRouter → Type 0
AllAgree fs fs' resources = All (λ m. All (λ e. Agrees fs fs' e.handler) m.1) resources

module _ (fs fs' : FileSystem) (path : Bytes) (req : HttpRequest)
    (safe : has_dotdot path ≡ false) where
  serve_resource-Agrees :
      (resource : Resource) (location : Bytes) (rep : Reply)
      → Agrees fs fs' resource
      → serve_resource fs resource location path req rep
        ≡ serve_resource fs' resource location path req rep
  unfolding serve_resource
  serve_resource-Agrees (static s) location rep a =
      serve_if_match-AgreeInside fs fs' s location path req rep a safe
  serve_resource-Agrees (dynamic d) location rep a = refl

  serve_first-Agrees :
      (es : List ResourceEntry) (rep : Reply)
      → All (λ e. Agrees fs fs' e.handler) es
      → serve_first fs es path req rep ≡ serve_first fs' es path req rep
  unfolding serve_first serve_if_match
  serve_first-Agrees [] rep a = refl
  serve_first-Agrees (e ∷ es) rep (p, a) =
      ap (λ m. elim m [ taken h ↦ h | passed r ↦ serve_first fs es path req r ])
        (serve_resource-Agrees e.handler e.location rep p)
      ∙ round (serve_resource fs' e.handler e.location path req rep)
          (λ rep'. serve_first-Agrees es rep' a)
    where
      round :
          (m : Tried)
          → ((rep' : Reply) → serve_first fs es path req rep' ≡ serve_first fs' es path req rep')
          → elim m [ taken h ↦ h | passed r ↦ serve_first fs es path req r ]
            ≡ elim m [ taken h ↦ h | passed r ↦ serve_first fs' es path req r ]
      round (taken h) ih = refl
      round (passed r) ih = ih r

not_refused-safe : (path : Bytes) → is_refused path ≡ false → has_dotdot path ≡ false
unfolding is_refused
not_refused-safe [] h = cc
not_refused-safe (c ∷ s) h = ground arith

serve_found-Agrees :
    (fs fs' : FileSystem) (path : Bytes) (req : HttpRequest) (rep : Reply)
    (found : Option (List ResourceEntry))
    → has_dotdot path ≡ false
    → ((es : List ResourceEntry) → found ≡ some es → All (λ e. Agrees fs fs' e.handler) es)
    → serve_found fs found path req rep ≡ serve_found fs' found path req rep
unfolding serve_found
serve_found-Agrees fs fs' path req rep none safe a = refl
serve_found-Agrees fs fs' path req rep (some es) safe a =
    serve_first-Agrees fs fs' path req safe es rep (a es refl)

route_path-Agrees :
    (fs fs' : FileSystem) (resources : PathRouter) (path : Bytes) (req : HttpRequest) (rep : Reply)
    → AllAgree fs fs' resources
    → route_path fs resources path req rep ≡ route_path fs' resources path req rep
unfolding route_path
route_path-Agrees fs fs' resources path req rep a = elim (Bool-cases (is_refused path)) [
  | inl refused ↦ rw refused
  | inr allowed ↦ rw allowed (
      serve_found-Agrees fs fs' path req rep (lookup (lookup_method req.method) resources)
        (not_refused-safe path allowed)
        (λ es e. lookup-All (λ _ hs. All (λ x. Agrees fs fs' x.handler) hs) _ resources a e))
]

-- The router never lets a request out of the roots: whatever the URI, encoded `..` included, two
-- file systems that agree below the root of each static content have the same outcome, a reply or an
-- exception.
pub route-AllAgree :
    (fs fs' : FileSystem) (resources : PathRouter) (req : HttpRequest) (rep : Reply)
    → AllAgree fs fs' resources
    → route fs resources req rep ≡ route fs' resources req rep
unfolding route
route-AllAgree fs fs' resources req rep a =
    rw (route_path-Agrees fs fs' resources (url_decode req.uri).1 req rep a)

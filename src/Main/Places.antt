-- ===== src/Main/Places.antt =====
-- The router that the `locations` of an entry make.
use f.Prelude.{◌≡◌, true, false, refl, ◌∙◌, ap, List, [], ◌∷◌, map, All, subst}
use f.Bytes.{Bytes, codes, equal}
use f.Config.{at_string, add_locations}
use f.Connection.{Connection, deliver}
use f.FileSystem.{FileSystem}
use f.Json.{Result, ok, throw, ◌>>=◌, JsonApi}
use f.Http.{HttpRequest}
use f.Reply.{Reply}
use f.Url.{url_decode}
use f.Router.Dispatch.{IsLongest}
use f.Router.{Resource, ResourceEntry, PathRouter, static, is_refused, lookup_method, add, route}
use f.Router.Replies.{AllAgree, Agrees, route-AllAgree}
use f.Router.Each.{entries_of, add_each, add_each-All, add_each-IsLongest}
use f.Router.Sorted.{IsSort, entry}
use f.Static.Containment.{AgreeInside}

-- A location, and the root that it serves.
abbrev pub Place : Type 0
Place = Bytes × Bytes

abbrev pub place_entry : Place → ResourceEntry
place_entry (path, root_doc) = entry path (static (record { doc_root = root_doc }))

abbrev place_resource : Place → Bytes × Resource
place_resource (path, root_doc) = (path, static (record { doc_root = root_doc }))

-- The router that has these places added to it, one after the other.
unfoldable pub add_all :
    (List ResourceEntry → List ResourceEntry) → List Place → PathRouter → PathRouter
unfolding add_each
add_all sort ps router = add_each sort (map place_resource ps) router

entries_of_places :
    (ps : List Place) → entries_of (codes "GET") (map place_resource ps) ≡ map place_entry ps
unfolding equal
entries_of_places [] = refl
entries_of_places (p ∷ ps) = ap (◌∷◌ (place_entry p)) (entries_of_places ps)

All-places {κ} :
    (Q : ResourceEntry → Type κ) (ps : List Place)
    → All (λ p. Q (place_entry p)) ps
    → All (λ r. Q (entry r.0 r.1)) (map place_resource ps)
All-places Q [] h = h
All-places Q (p ∷ ps) (q, h) = (q, All-places Q ps h)

module _ (api : JsonApi) where
  open api use {Json}

  -- The places that the elements of `locations` name.
  unfoldable pub places : List Json → Result (List Place)
  places [] = ok []
  places (j ∷ js) = do
    root_doc ← at_string api j (codes "root")
    path ← at_string api j (codes "location")
    ps ← places js
    ok ((path, root_doc) ∷ ps)

  -- The loop makes the router of these places, and throws where one of them cannot be read.
  pub add_locations-places :
      (sort : List ResourceEntry → List ResourceEntry) (js : List Json) (router : PathRouter)
      → add_locations api sort js router ≡ (places js >>= λ ps. ok (add_all sort ps router))
  unfolding add_locations places add_all add_each
  add_locations-places sort [] router = refl
  add_locations-places sort (j ∷ js) router =
      round (at_string api j (codes "root")) (at_string api j (codes "location"))
        (add_locations-places sort js)
    where
      round :
          (m n : Result Bytes)
          → ((r : PathRouter)
              → add_locations api sort js r ≡ (places js >>= λ ps. ok (add_all sort ps r)))
          → (m >>= λ root_doc. n >>= λ path.
              add_locations api sort js
                (add sort path (static (record { doc_root = root_doc })) router))
            ≡ ((m >>= λ root_doc. n >>= λ path. places js >>= λ ps. ok ((path, root_doc) ∷ ps))
                >>= λ ps. ok (add_all sort ps router))
      round (throw f) n ih = refl
      round (ok root_doc) (throw f) ih = refl
      round (ok root_doc) (ok path) ih = ih _ ∙ rest (places js)
        where
          rest :
              (m : Result (List Place))
              → (m >>= λ ps. ok (
                  add_all sort ps (add sort path (static (record { doc_root = root_doc })) router)))
                ≡ ((m >>= λ ps. ok ((path, root_doc) ∷ ps)) >>= λ ps. ok (add_all sort ps router))
          rest (throw f) = refl
          rest (ok ps) = refl

made_of :
    (sort : List ResourceEntry → List ResourceEntry) {ps : List Place} {router : PathRouter}
    {m : Result (List Place)} {m' : Result PathRouter}
    → m' ≡ (m >>= λ qs. ok (add_all sort qs []))
    → m ≡ ok ps
    → m' ≡ ok router
    → add_all sort ps [] ≡ router
made_of sort e n e' = cc

-- What a client gets of a server whose `locations` name these places does not depend on anything
-- outside of their roots: whatever it sends, in whatever pieces, with two file systems that agree
-- below each root the connection ends up the same.
pub add_locations-deliver :
    (api : JsonApi) {sort : List ResourceEntry → List ResourceEntry} (fs fs' : FileSystem)
    (js : List (api.Json)) (ps : List Place) {router : PathRouter} (chunks : List Bytes)
    (c : Connection)
    → IsSort sort
    → add_locations api sort js [] ≡ ok router
    → places api js ≡ ok ps
    → All (λ p. AgreeInside p.1 fs fs') ps
    → deliver (route fs router) chunks c ≡ deliver (route fs' router) chunks c
add_locations-deliver api {sort} fs fs' js ps {router} chunks c valid made named agree =
    let agrees : AllAgree fs fs' router =
      subst (λ r. AllAgree fs fs' r) (made_of sort (add_locations-places api sort js []) named made)
        (unfold add_all in
          add_each-All valid (λ e. Agrees fs fs' e.handler) (map place_resource ps) []
            (All-places (λ e. Agrees fs fs' e.handler) ps agree) tt) in
    ap (λ handler. deliver handler chunks c)
      (λ i req rep. route-AllAgree fs fs' router req rep agrees i)

-- With a sort that does what the standard says, the place with the longest location answers a GET
-- or HEAD for a path that is absolute and has no `..`, in whatever order the configuration names
-- the places: the outcome is that of a place, and each place with a longer location refuses the
-- path; or all of them refuse it, and the reply is the stock one for `not_found`.
pub add_locations-IsLongest :
    (api : JsonApi) {sort : List ResourceEntry → List ResourceEntry} (fs : FileSystem)
    (js : List (api.Json)) (ps : List Place) {router : PathRouter} {path : Bytes}
    (req : HttpRequest) (rep : Reply)
    → IsSort sort
    → add_locations api sort js [] ≡ ok router
    → places api js ≡ ok ps
    → url_decode req.uri ≡ (true, path)
    → is_refused path ≡ false
    → lookup_method req.method ≡ codes "GET"
    → IsLongest fs path req rep (map place_entry ps) (route fs router req rep)
unfolding add_all
add_locations-IsLongest api {sort} fs js ps {path} req rep valid made named decodes allowed method =
    subst (λ r. IsLongest fs path req rep (map place_entry ps) (route fs r req rep))
      (made_of sort (add_locations-places api sort js []) named made)
      (subst (λ es. IsLongest fs path req rep es (route fs (add_all sort ps []) req rep))
        (entries_of_places ps)
        (add_each-IsLongest fs (map place_resource ps) req rep valid decodes allowed method))

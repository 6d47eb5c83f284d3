-- ===== src/Router/Dispatch.antt =====
-- Which entry of the router answers a path.
use mathlib.Core.List.{Memᴰ, Permᴰ}
use f.Prelude.{
  ℕ, ◌≤◌, ◌<◌, ◌≡◌, ◌⊎◌, refl, Bool, true, false, some, List, [], ◌∷◌, length, All, arith,
  if◌then◌else◌, inl, inr, Option, none, All-perm, All-Memᴰ, Memᴰ-perm,
}
use f.Bytes.{Bytes}
use f.FileSystem.{FileSystem}
use f.Http.{HttpRequest}
use f.Map.{lookup, lookup-All}
use f.Reply.{Handled, replied, Tried, passed, taken, Reply, not_found, stock_reply}
use f.Static
use f.Static.{StaticContent}
use f.Dynamic
use f.Router.{
  Resource, static, dynamic, ResourceEntry, PathRouter, serve_resource, serve_if_match, serve_first,
  handlers_of, serve_found, is_refused, lookup_method, route_path, route,
}
use f.Router.Sorted.{IsDescending, AllDescending}
use f.Url.{url_decode}

-- A resource either leaves the reply as it was, or gives one.
abbrev Attempt : Reply → Tried → Type 0
Attempt rep result = (result ≡ passed rep) ⊎ ((r : Handled) × (result ≡ taken r))

Attempt-if :
    (test : Bool) (rep : Reply) (r : Handled) → Attempt rep (if test then taken r else passed rep)
Attempt-if true rep r = inr (r, refl)
Attempt-if false rep r = inl refl

Attempt-unless :
    (test : Bool) (rep : Reply) (r : Handled) → Attempt rep (if test then passed rep else taken r)
Attempt-unless true rep r = inl refl
Attempt-unless false rep r = inr (r, refl)

serve_resource-Attempt :
    (fs : FileSystem) (resource : Resource) (location path : Bytes) (req : HttpRequest)
    (rep : Reply)
    → Attempt rep (serve_resource fs resource location path req rep)
unfolding serve_resource Static.serve_if_match Dynamic.serve_if_match
serve_resource-Attempt fs (static s) location path req rep = Attempt-unless _ rep _
serve_resource-Attempt fs (dynamic d) location path req rep = Attempt-if _ rep _

module _ (fs : FileSystem) (path : Bytes) (req : HttpRequest) (rep : Reply) where
  abbrev pub Refuses : ResourceEntry → Type 0
  Refuses e = serve_if_match fs e path req rep ≡ passed rep

  abbrev pub Serves : Handled → ResourceEntry → Type 0
  Serves r e = serve_if_match fs e path req rep ≡ taken r

  -- The outcome `r`, a reply or an exception, is that of an entry of the list, and every entry with
  -- a longer location refuses the path; or all entries refuse it, and `r` is the stock reply for it.
  abbrev pub IsLongest : List ResourceEntry → Handled → Type 0
  IsLongest es r =
      ((e : ResourceEntry) × Memᴰ e es
        × Serves r e
        × All (λ x. length e.location < length x.location → Refuses x) es)
      ⊎ (All Refuses es × (r ≡ replied (stock_reply not_found)))

  entry-Attempt : (e : ResourceEntry) → Attempt rep (serve_if_match fs e path req rep)
  unfolding serve_if_match
  entry-Attempt e = serve_resource-Attempt fs e.handler e.location path req rep

  pub serve_first_refused :
      (e : ResourceEntry) (es : List ResourceEntry)
      → Refuses e
      → serve_first fs (e ∷ es) path req rep ≡ serve_first fs es path req rep
  unfolding serve_first
  serve_first_refused e es h = rw (h, serve_first)

  pub serve_first_served :
      (e : ResourceEntry) (es : List ResourceEntry) {r : Handled}
      → Serves r e
      → serve_first fs (e ∷ es) path req rep ≡ r
  unfolding serve_first
  serve_first_served e es h = rw (h, serve_first)

  IsLongest-cons :
      {e : ResourceEntry} {es : List ResourceEntry} {r : Handled}
      → Refuses e
      → IsLongest es r
      → IsLongest (e ∷ es) r
  IsLongest-cons h (inl (x, m, s, a)) = inl (x, Memᴰ.tail m, s, (λ _. h, a))
  IsLongest-cons h (inr (a, q)) = inr ((h, a), q)

  none_longer :
      (n : ℕ) (es : List ResourceEntry)
      → All (λ x. length x.location ≤ n) es
      → All (λ x. n < length x.location → Refuses x) es
  none_longer n [] h = tt
  none_longer n (x ∷ es) (p, h) = (λ lt. absurd (omega arith), none_longer n es h)

  pub serve_first-IsLongest :
      (es : List ResourceEntry) → IsDescending es → IsLongest es (serve_first fs es path req rep)
  serve_first-IsLongest [] h = inr (tt, unfold serve_first in refl)
  serve_first-IsLongest (e ∷ es) (b, h) = round (entry-Attempt e) (serve_first-IsLongest es h)
    where
      round :
          Attempt rep (serve_if_match fs e path req rep)
          → IsLongest es (serve_first fs es path req rep)
          → IsLongest (e ∷ es) (serve_first fs (e ∷ es) path req rep)
      round (inl refused) ih = rw (serve_first_refused e es refused) (IsLongest-cons refused ih)
      round (inr (r, served)) ih = rw (serve_first_served e es served) (
          inl (
            e,
            Memᴰ.head refl,
            served,
            (λ lt. absurd (omega arith), none_longer (length e.location) es b),
          ))

-- A path that decodes and is not refused, and a method that has entries.
pub record Reaches (resources : PathRouter) (req : HttpRequest) (path : Bytes)
    (es : List ResourceEntry) : Type 0 where
  pub decodes : url_decode req.uri ≡ (true, path)
  pub allowed : is_refused path ≡ false
  pub found : lookup (lookup_method req.method) resources ≡ some es

pub route-serve_first :
    {resources : PathRouter} {req : HttpRequest} {path : Bytes} {es : List ResourceEntry}
    (fs : FileSystem) (rep : Reply)
    → Reaches resources req path es
    → route fs resources req rep ≡ serve_first fs es path req rep
unfolding route route_path serve_found
route-serve_first fs rep h = rw (h.decodes, h.allowed, h.found)

-- For a router with the entries of each method in descending order, as `add` keeps them: where the
-- URI decodes to a path that is absolute and has no `..`, and the method has entries, the longest
-- location wins: what the handler of an entry of the method makes of it, a reply or an exception, is
-- the outcome, and each entry with a longer location refuses the path; or all refuse it, and the
-- reply is the stock one for `not_found`.
pub route-IsLongest :
    {resources : PathRouter} {req : HttpRequest} {path : Bytes} {es : List ResourceEntry}
    (fs : FileSystem) (rep : Reply)
    → AllDescending resources
    → Reaches resources req path es
    → IsLongest fs path req rep es (route fs resources req rep)
route-IsLongest {resources} {req} {es} fs rep h k = rw (route-serve_first fs rep k) (
    serve_first-IsLongest fs _ req rep es
      (lookup-All (λ _ hs. IsDescending hs) _ resources h k.found))

module _ (fs : FileSystem) (path : Bytes) (req : HttpRequest) (rep : Reply) where
  -- The order of the entries does not matter to what the longest location answers.
  pub IsLongest-perm :
      {es es' : List ResourceEntry} {r : Handled}
      → Permᴰ es es'
      → IsLongest fs path req rep es r
      → IsLongest fs path req rep es' r
  IsLongest-perm d (inl (e, m, s, a)) = inl (e, Memᴰ-perm d m, s, All-perm _ d a)
  IsLongest-perm d (inr (a, q)) = inr (All-perm _ d a, q)

  -- The same for a method that may have no entries.
  pub route-handlers :
      (resources : PathRouter)
      → AllDescending resources
      → url_decode req.uri ≡ (true, path)
      → is_refused path ≡ false
      → IsLongest fs path req rep
          (handlers_of (lookup (lookup_method req.method) resources))
          (route fs resources req rep)
  unfolding route route_path serve_found
  route-handlers resources h decodes allowed =
      rw (decodes, allowed)
        (found (lookup (lookup_method req.method) resources)
          (λ es e. lookup-All (λ _ hs. IsDescending hs) _ resources h e))
    where
      found :
          (es : Option (List ResourceEntry))
          → ((hs : List ResourceEntry) → es ≡ some hs → IsDescending hs)
          → IsLongest fs path req rep (handlers_of es) (serve_found fs es path req rep)
      found none k = inr (tt, refl)
      found (some hs) k = serve_first-IsLongest fs path req rep hs (k hs refl)

module _ (fs : FileSystem) (path : Bytes) (req : HttpRequest) (rep : Reply) where
  pub Serves-unique :
      {r r' : Handled} (e : ResourceEntry)
      → Refuses fs path req rep e ⊎ Serves fs path req rep r' e
      → Serves fs path req rep r e
      → r ≡ r'
  Serves-unique e (inl refused) s = cc (refused, s)
  Serves-unique e (inr served) s = cc (served, s)

  -- Where an entry serves the path and the others refuse it or have the same outcome, that is the
  -- outcome.
  pub IsLongest-only :
      (r' : Handled) (es : List ResourceEntry) {r : Handled}
      → All (λ x. Refuses fs path req rep x ⊎ Serves fs path req rep r' x) es
      → ¬ All (Refuses fs path req rep) es
      → IsLongest fs path req rep es r
      → r ≡ r'
  IsLongest-only r' es h some_serves (inl (e, m, s, _)) =
      Serves-unique e
        (All-Memᴰ (λ x. Refuses fs path req rep x ⊎ Serves fs path req rep r' x) es h m) s
  IsLongest-only r' es h some_serves (inr (a, _)) = absurd (some_serves a)

  -- An entry that serves the path answers, where every other one is shorter or refuses it.
  pub IsLongest-longest :
      (e : ResourceEntry) (es : List ResourceEntry) {r r' : Handled}
      → Memᴰ e es
      → Serves fs path req rep r' e
      → All
          (λ x.
            (length x.location < length e.location)
            ⊎ (Refuses fs path req rep x ⊎ Serves fs path req rep r' x))
          es
      → IsLongest fs path req rep es r
      → r ≡ r'
  IsLongest-longest e es {r} {r'} m s h (inl (x, n, t, longer)) = answers (
      All-Memᴰ
        (λ y.
          (length y.location < length e.location)
          ⊎ (Refuses fs path req rep y ⊎ Serves fs path req rep r' y))
        es h n)
    where
      answers :
          ((length x.location < length e.location)
            ⊎ (Refuses fs path req rep x ⊎ Serves fs path req rep r' x))
          → r ≡ r'
      answers (inl shorter) = cc (
        All-Memᴰ (λ y. length x.location < length y.location → Refuses fs path req rep y) es longer
            m shorter,
        s,
      )
      answers (inr other) = Serves-unique x other t
  IsLongest-longest e es m s h (inr (a, _)) = cc (All-Memᴰ (Refuses fs path req rep) es a m, s)

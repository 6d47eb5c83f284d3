-- ===== src/Router/Each.antt =====
-- Several calls of `path_router::add`, one after the other.
use mathlib.Core.List.{Permᴰ}
use mathlib.Core.List.Permᴰ
use f.Prelude.{
  ◌≡◌, true, false, subst, List, [], ◌∷◌, ◌++◌, All, append-nil, append_assoc, if◌then◌else◌,
}
use f.Bytes.{Bytes, equal}
use f.FileSystem.{FileSystem}
use f.Http.{HttpRequest}
use f.Map.{lookup}
use f.Reply.{Reply}
use f.Router.{
  Resource, ResourceEntry, PathRouter, method_of, handlers_of, is_refused, lookup_method, add,
  route,
}
use f.Router.Dispatch.{IsLongest, IsLongest-perm, route-handlers}
use f.Url.{url_decode}
use f.Router.Sorted.{IsSort, AllDescending, entry, add-AllDescending, add-permutes, add-All}

-- The entries that these resources make for a method.
abbrev pub entries_of : Bytes → List (Bytes × Resource) → List ResourceEntry
entries_of method [] = []
entries_of method ((location, resource) ∷ rs) =
    (if equal (method_of resource) method then entry location resource ∷ [] else [])
    ++ entries_of method rs

unfoldable pub add_each :
    (List ResourceEntry → List ResourceEntry) → List (Bytes × Resource) → PathRouter → PathRouter
add_each sort [] router = router
add_each sort ((location, resource) ∷ rs) router =
    add_each sort rs (add sort location resource router)

module _ {sort : List ResourceEntry → List ResourceEntry} (valid : IsSort sort) where
  pub add_each-AllDescending :
      (rs : List (Bytes × Resource)) (router : PathRouter)
      → AllDescending router
      → AllDescending (add_each sort rs router)
  unfolding add_each
  add_each-AllDescending [] router h = h
  add_each-AllDescending ((location, resource) ∷ rs) router h =
      add_each-AllDescending rs _ (add-AllDescending valid location resource router h)

  pub add_each-All {κ} :
      (Q : ResourceEntry → Type κ) (rs : List (Bytes × Resource)) (router : PathRouter)
      → All (λ r. Q (entry r.0 r.1)) rs
      → All (λ m. All Q m.1) router
      → All (λ m. All Q m.1) (add_each sort rs router)
  unfolding add_each
  add_each-All Q [] router h k = k
  add_each-All Q ((location, resource) ∷ rs) router (q, h) k =
      add_each-All Q rs _ h (add-All Q valid location resource router q k)

  -- The entries of a method are those that were there and the new ones, in some order.
  pub add_each-permutes :
      (method : Bytes) (rs : List (Bytes × Resource)) (router : PathRouter)
      → Permᴰ
          (handlers_of (lookup method (add_each sort rs router)))
          (handlers_of (lookup method router) ++ entries_of method rs)
  unfolding add_each
  add_each-permutes method [] router = rw append-nil (Permᴰ.refl _)
  add_each-permutes method ((location, resource) ∷ rs) router =
      Permᴰ.trans (add_each-permutes method rs _) (
        rw
          (← append_assoc (handlers_of (lookup method router))
            (if equal (method_of resource) method then entry location resource ∷ [] else [])
            (entries_of method rs))
          (Permᴰ.append_right (entries_of method rs)
            (add-permutes valid location resource router method)))

-- The longest location wins among all resources that were added for the method, in whatever order
-- they were added.
pub add_each-IsLongest :
    {sort : List ResourceEntry → List ResourceEntry} (fs : FileSystem)
    (rs : List (Bytes × Resource)) {path method : Bytes} (req : HttpRequest) (rep : Reply)
    → IsSort sort
    → url_decode req.uri ≡ (true, path)
    → is_refused path ≡ false
    → lookup_method req.method ≡ method
    → IsLongest fs path req rep (entries_of method rs) (route fs (add_each sort rs []) req rep)
unfolding lookup
add_each-IsLongest {sort} fs rs {path} {method} req rep valid decodes allowed same =
    IsLongest-perm fs path req rep (add_each-permutes valid method rs []) (
      subst
        (λ m.
          IsLongest fs path req rep (handlers_of (lookup m (add_each sort rs [])))
            (route fs (add_each sort rs []) req rep))
        same
        (route-handlers fs path req rep _ (add_each-AllDescending valid rs [] tt) decodes allowed))

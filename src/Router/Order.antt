-- ===== src/Router/Order.antt =====
-- The order of the calls of `path_router::add` does not matter.
use mathlib.Core.List.{Memᴰ, Permᴰ}
use mathlib.Core.List.Permᴰ
use f.Prelude.{
  ℕ, ◌<◌, ◌≡◌, ◌⊎◌, inl, inr, refl, subst, Bool, true, false, List, [], ◌∷◌, ◌++◌, length, All-Memᴰ,
  ltb, Bool-cases, arith, if◌then◌else◌,
}
use f.Bytes.{Bytes, equal}
use f.FileSystem.{FileSystem}
use f.Http.{HttpRequest}
use f.Reply.{Handled, Reply}
use f.Router.{Resource, ResourceEntry, is_refused, lookup_method, method_of, route}
use f.Router.Dispatch.{Refuses, Serves, IsLongest, IsLongest-perm}
use f.Router.Each.{entries_of, add_each, add_each-IsLongest}
use f.Router.Sorted.{IsSort, entry}
use f.Url.{url_decode}

order_cases : (m n : ℕ) → (m < n) ⊎ ((n < m) ⊎ (m ≡ n))
order_cases m n = elim (Bool-cases (ltb m n)) [
  | inl less ↦ inl (ground (arith, less))
  | inr not_less ↦ elim (Bool-cases (ltb n m)) [
    | inl more ↦ inr (inl (ground (arith, more)))
    | inr not_more ↦ inr (inr (ground (arith, not_less, not_more)))
  ]
]

swap_parts :
    (t u : Bool) (x y : ResourceEntry) (es : List ResourceEntry)
    → Permᴰ
        ((if t then x ∷ [] else []) ++ ((if u then y ∷ [] else []) ++ es))
        ((if u then y ∷ [] else []) ++ ((if t then x ∷ [] else []) ++ es))
swap_parts true true x y es = Permᴰ.swap refl refl
swap_parts true false x y es = Permᴰ.refl (x ∷ es)
swap_parts false true x y es = Permᴰ.refl (y ∷ es)
swap_parts false false x y es = Permᴰ.refl es

module _ (method : Bytes) where
  abbrev part : Bytes × Resource → List ResourceEntry
  part r = if equal (method_of r.1) method then entry r.0 r.1 ∷ [] else []

  -- The entries of the resources in another order are the entries in another order.
  entries_of-perm :
      {rs rs' : List (Bytes × Resource)}
      → Permᴰ rs rs'
      → Permᴰ (entries_of method rs) (entries_of method rs')
  entries_of-perm Permᴰ.nil = Permᴰ.refl []
  entries_of-perm (Permᴰ.cons {a = a} {l₁ = l₁} {l₂ = l₂} e d) =
      subst (λ r. Permᴰ (part a ++ entries_of method l₁) (part r ++ entries_of method l₂)) e
        (Permᴰ.append_left (part a) (entries_of-perm d))
  entries_of-perm (Permᴰ.swap {a = a} {b = b} {b' = b'} {l = l} e e') =
      subst
        (λ r.
          Permᴰ (part a ++ (part b ++ entries_of method l))
            (part r ++ (part b' ++ entries_of method l)))
        e'
        (subst
          (λ r.
            Permᴰ (part a ++ (part b ++ entries_of method l))
              (part b ++ (part r ++ entries_of method l)))
          e
          (swap_parts (equal (method_of a.1) method) (equal (method_of b.1) method) (entry a.0 a.1)
            (entry b.0 b.1) (entries_of method l)))
  entries_of-perm (Permᴰ.trans d d') = Permᴰ.trans (entries_of-perm d) (entries_of-perm d')

module _ (fs : FileSystem) (path : Bytes) (req : HttpRequest) (rep : Reply) where
  -- No two entries of the same length serve the path with different outcomes.
  abbrev pub NoTies : List ResourceEntry → Type 0
  NoTies es =
      (e e' : ResourceEntry) (r r' : Handled)
      → Memᴰ e es
      → Memᴰ e' es
      → length e.location ≡ length e'.location
      → Serves fs path req rep r e
      → Serves fs path req rep r' e'
      → r ≡ r'

  IsLongest-unique :
      (es : List ResourceEntry) {r r' : Handled}
      → NoTies es
      → IsLongest fs path req rep es r
      → IsLongest fs path req rep es r'
      → r ≡ r'
  IsLongest-unique es {r} {r'} h (inl (e, m, s, a)) (inl (e', m', s', a')) =
      cases (order_cases (length e.location) (length e'.location))
    where
      -- A longer entry that serves the path refuses it as well.
      cases :
          ((length e.location < length e'.location)
            ⊎ ((length e'.location < length e.location) ⊎ (length e.location ≡ length e'.location)))
          → r ≡ r'
      cases (inl shorter) = cc (
        All-Memᴰ (λ x. length e.location < length x.location → Refuses fs path req rep x) es a m'
            shorter,
        s',
      )
      cases (inr (inl longer)) = cc (
        All-Memᴰ (λ x. length e'.location < length x.location → Refuses fs path req rep x) es a' m
            longer,
        s,
      )
      cases (inr (inr same)) = h e e' r r' m m' same s s'
  IsLongest-unique es h (inl (e, m, s, a)) (inr (b, _)) =
      cc (All-Memᴰ (Refuses fs path req rep) es b m, s)
  IsLongest-unique es h (inr (b, _)) (inl (e, m, s, a)) =
      cc (All-Memᴰ (Refuses fs path req rep) es b m, s)
  IsLongest-unique es h (inr (_, p)) (inr (_, q)) = cc (p, q)

-- A router does not depend on the order in which its resources were added, nor on which sort that
-- does what the standard says is used: for a path that is absolute and has no `..`, two routers of
-- the same resources in any two orders have the same outcome, a reply or an exception, if no two
-- entries of the method whose locations have the same length serve the path with different outcomes.
pub route-perm :
    {sort sort' : List ResourceEntry → List ResourceEntry} (fs : FileSystem)
    {rs rs' : List (Bytes × Resource)} {path : Bytes} (req : HttpRequest) (rep : Reply)
    → IsSort sort
    → IsSort sort'
    → Permᴰ rs rs'
    → url_decode req.uri ≡ (true, path)
    → is_refused path ≡ false
    → NoTies fs path req rep (entries_of (lookup_method req.method) rs)
    → route fs (add_each sort rs []) req rep ≡ route fs (add_each sort' rs' []) req rep
route-perm fs {rs} {rs'} {path} req rep valid valid' d decodes allowed ties =
    IsLongest-unique fs path req rep (entries_of (lookup_method req.method) rs) ties
      (add_each-IsLongest fs rs req rep valid decodes allowed refl)
      (IsLongest-perm fs path req rep (Permᴰ.symm (entries_of-perm (lookup_method req.method) d))
        (add_each-IsLongest fs rs' req rep valid' decodes allowed refl))

-- ===== src/Router/Sorted.antt =====
-- The order of the entries under `path_router::add`.
use mathlib.Core.List.{Perm, Permᴰ}
use mathlib.Core.List.Permᴰ
use f.Prelude.{
  ◌≡◌, refl, All-perm, All-append, Option, none, some, ℕ, ◌≤◌, List, [], ◌∷◌, ◌++◌, length, leb,
  All, arith, if◌then◌else◌, Bool-cases, inl, inr, append-nil,
}
use f.Bytes.{Bytes, equal, equal_iff, equal_self}
use f.Map.{lookup-All, lookup, insert, lookup-insert}
use f.Router.{Resource, ResourceEntry, PathRouter, method_of, handlers_of, add}

-- Longer locations first.
abbrev pub IsDescending : List ResourceEntry → Type 0
IsDescending [] = Unit
IsDescending (e ∷ es) = All (λ x. length x.location ≤ length e.location) es × IsDescending es

-- What the standard says of `std::sort` with the comparison of `add`.
pub record IsSort (sort : List ResourceEntry → List ResourceEntry) : Type 0 where
  pub descending : (es : List ResourceEntry) → IsDescending (sort es)
  pub permutes : (es : List ResourceEntry) → Permᴰ (sort es) es

abbrev pub AllDescending : PathRouter → Type 0
AllDescending resources = All (λ m. IsDescending m.1) resources

abbrev pub entry : Bytes → Resource → ResourceEntry
entry location resource = record { location = location; handler = resource }

All-insert {ℓ κ} :
    {V : Type ℓ} (P : V → Type κ) (key : Bytes) (value : V) (m : List (Bytes × V))
    → P value
    → All (λ e. P e.1) m
    → All (λ e. P e.1) (insert key value m)
unfolding insert
All-insert P key value [] p h = (p, tt)
All-insert P key value ((k, v) ∷ m) p (q, h) = elim (Bool-cases (equal k key)) [
  | inl same ↦ rw same (p, h)
  | inr other ↦ rw other (q, All-insert P key value m p h)
]

module _ {sort : List ResourceEntry → List ResourceEntry} (valid : IsSort sort) where
  -- With a sort that does what the standard says, adding a resource keeps the entries of every
  -- method in descending order of their locations' lengths.
  pub add-AllDescending :
      (location : Bytes) (resource : Resource) (resources : PathRouter)
      → AllDescending resources
      → AllDescending (add sort location resource resources)
  unfolding add
  add-AllDescending location resource resources h =
      All-insert IsDescending (method_of resource) _ resources (valid.descending _) h

  -- What add-perm says, with the permutation itself.
  pub add-permutes :
      (location : Bytes) (resource : Resource) (resources : PathRouter) (method : Bytes)
      → Permᴰ (handlers_of (lookup method (add sort location resource resources))) (
          handlers_of (lookup method resources)
          ++ (if equal (method_of resource) method then entry location resource ∷ [] else []))
  unfolding add
  add-permutes location resource resources method =
      elim (Bool-cases (equal (method_of resource) method)) [
        | inl same ↦
            rw (← (equal_iff (method_of resource) method).0 same, lookup-insert, equal_self)
              (valid.permutes _)
        | inr other ↦ rw (lookup-insert, other, append-nil) (Permᴰ.refl _)
      ]

  -- With such a sort, adding a resource gives its method one more entry, up to order, and no other
  -- method any.
  add-perm :
      (location : Bytes) (resource : Resource) (resources : PathRouter) (method : Bytes)
      → Perm (handlers_of (lookup method (add sort location resource resources))) (
          handlers_of (lookup method resources)
          ++ (if equal (method_of resource) method then entry location resource ∷ [] else []))
  add-perm location resource resources method = ∣ add-permutes location resource resources method ∣₁

handlers-All {κ} :
    (Q : ResourceEntry → Type κ) (found : Option (List ResourceEntry))
    → ((es : List ResourceEntry) → found ≡ some es → All Q es)
    → All Q (handlers_of found)
handlers-All Q none h = tt
handlers-All Q (some es) h = h es refl

-- With such a sort, what holds of all entries and of a new one holds of all behind its addition.
pub add-All {κ} :
    (Q : ResourceEntry → Type κ) {sort : List ResourceEntry → List ResourceEntry}
    → IsSort sort
    → (location : Bytes) (resource : Resource) (resources : PathRouter)
    → Q (entry location resource)
    → All (λ m. All Q m.1) resources
    → All (λ m. All Q m.1) (add sort location resource resources)
unfolding add
add-All Q valid location resource resources q h =
    All-insert (All Q) (method_of resource) _ resources
      (All-perm Q (Permᴰ.symm (valid.permutes _)) (
        All-append Q (handlers_of (lookup (method_of resource) resources))
          (entry location resource ∷ [])
          (handlers-All Q (lookup (method_of resource) resources)
            (λ es e. lookup-All (λ _ hs. All Q hs) (method_of resource) resources h e))
          (q, tt)))
      h

-- Insertion sort by the lengths of the locations: a function that meets what the standard says.
insert_entry : ResourceEntry → List ResourceEntry → List ResourceEntry
insert_entry e [] = e ∷ []
insert_entry e (x ∷ xs) =
    if leb (length x.location) (length e.location) then e ∷ x ∷ xs else x ∷ insert_entry e xs

unfoldable pub insertion_sort : List ResourceEntry → List ResourceEntry
unfolding insert_entry
insertion_sort [] = []
insertion_sort (e ∷ es) = insert_entry e (insertion_sort es)

abbrev IsBelow : ℕ → ResourceEntry → Type 0
IsBelow n x = length x.location ≤ n

All-IsBelow : {m n : ℕ} (es : List ResourceEntry) → m ≤ n → All (IsBelow m) es → All (IsBelow n) es
All-IsBelow [] h a = tt
All-IsBelow (x ∷ es) h (p, a) = (omega arith, All-IsBelow es h a)

insert_entry-IsBelow :
    (n : ℕ) (e : ResourceEntry) (es : List ResourceEntry)
    → IsBelow n e
    → All (IsBelow n) es
    → All (IsBelow n) (insert_entry e es)
unfolding insert_entry
insert_entry-IsBelow n e [] p a = (p, tt)
insert_entry-IsBelow n e (x ∷ xs) p (q, a) = ground (arith, insert_entry-IsBelow n e xs p a)

insert_entry-IsDescending :
    (e : ResourceEntry) (es : List ResourceEntry)
    → IsDescending es
    → IsDescending (insert_entry e es)
unfolding insert_entry
insert_entry-IsDescending e [] h = (tt, tt)
insert_entry-IsDescending e (x ∷ xs) (b, h) = ground (
  arith,
  All-IsBelow {m = length x.location} {n = length e.location} xs,
  insert_entry-IsBelow (length x.location) e xs,
  insert_entry-IsDescending e xs h,
)

insert_entry-perm :
    (e : ResourceEntry) (es : List ResourceEntry) → Permᴰ (insert_entry e es) (e ∷ es)
unfolding insert_entry
insert_entry-perm e [] = Permᴰ.refl (e ∷ [])
insert_entry-perm e (x ∷ xs) = elim (Bool-cases (leb (length x.location) (length e.location))) [
  | inl first ↦ rw first (Permᴰ.refl (e ∷ x ∷ xs))
  | inr later ↦
      rw later (Permᴰ.trans (Permᴰ.cons refl (insert_entry-perm e xs)) (Permᴰ.swap refl refl))
]

insertion_sort-IsDescending : (es : List ResourceEntry) → IsDescending (insertion_sort es)
unfolding insertion_sort
insertion_sort-IsDescending [] = tt
insertion_sort-IsDescending (e ∷ es) =
    insert_entry-IsDescending e (insertion_sort es) (insertion_sort-IsDescending es)

insertion_sort-perm : (es : List ResourceEntry) → Permᴰ (insertion_sort es) es
unfolding insertion_sort
insertion_sort-perm [] = Permᴰ.refl []
insertion_sort-perm (e ∷ es) =
    Permᴰ.trans (insert_entry-perm e (insertion_sort es)) (Permᴰ.cons refl (insertion_sort-perm es))

pub insertion_sort-IsSort : IsSort insertion_sort
insertion_sort-IsSort = record {
  descending = insertion_sort-IsDescending;
  permutes = insertion_sort-perm;
}

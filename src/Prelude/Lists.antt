-- ===== src/Prelude/Lists.antt =====
-- Lists measured by native numbers, and predicates on all their elements.
use Prim.Native.Nat.{ℕ, zero, suc, ◌+◌, ◌≤◌}
use mathlib.Core.Path.{◌≡◌, ◌∙◌, sym, subst}
use mathlib.Core.List.{Permᴰ, Memᴰ}
use mathlib.Core.List.Memᴰ.{head, tail}
use mathlib.Core.List.Permᴰ.{nil, cons, swap, trans}
use mathlib.Core.List.{List, [], ◌∷◌, ◌++◌}
use native.Mathlib.Omega.{arith}

module _ {ℓ} {A : Type ℓ} where
  abbrev pub length : List A → ℕ
  length [] = 0
  length (_ ∷ xs) = suc (length xs)

  abbrev pub take : ℕ → List A → List A
  take zero xs = []
  take (suc n) [] = []
  take (suc n) (x ∷ xs) = x ∷ take n xs

  abbrev pub drop : ℕ → List A → List A
  drop zero xs = xs
  drop (suc n) [] = []
  drop (suc n) (x ∷ xs) = drop n xs

  pub length-append : (xs ys : List A) → length (xs ++ ys) ≡ length xs + length ys
  length-append [] ys = omega arith
  length-append (x ∷ xs) ys = omega (arith, length-append xs ys)

  pub length-drop-le : (n : ℕ) (xs : List A) → length (drop n xs) ≤ length xs
  length-drop-le zero xs = omega arith
  length-drop-le (suc n) [] = omega arith
  length-drop-le (suc n) (x ∷ xs) = omega (arith, length-drop-le n xs)

module _ {ℓ κ} {A : Type ℓ} (P : A → Type κ) where
  abbrev pub All : List A → Type κ
  All [] = Unit
  All (x ∷ xs) = P x × All xs

  pub All-append : (xs ys : List A) → All xs → All ys → All (xs ++ ys)
  All-append [] ys hx hy = hy
  All-append (x ∷ xs) ys (p, hx) hy = (p, All-append xs ys hx hy)

  pub All-concat : (xs : List A) (x : A) → All xs → P x → All (xs ++ x ∷ [])
  All-concat [] x _ p = (p, tt)
  All-concat (y ∷ xs) x (q, h) p = (q, All-concat xs x h p)

  -- What holds of all elements of a list holds of all of those of a permutation of it.
  pub All-perm : {xs ys : List A} → Permᴰ xs ys → All xs → All ys
  All-perm nil h = tt
  All-perm (cons e d) (p, h) = (subst P e p, All-perm d h)
  All-perm (swap e e') (p, (q, h)) = (subst P e' q, (subst P e p, h))
  All-perm (trans d d') h = All-perm d' (All-perm d h)

  pub All-Memᴰ : {x : A} (xs : List A) → All xs → Memᴰ x xs → P x
  All-Memᴰ [] h m = elim m [ ]
  All-Memᴰ (y ∷ ys) (p, h) (head q) = subst P (sym q) p
  All-Memᴰ (y ∷ ys) (p, h) (tail m) = All-Memᴰ ys h m

module _ {ℓ} {A : Type ℓ} where
  pub Memᴰ-perm : {x : A} {xs ys : List A} → Permᴰ xs ys → Memᴰ x xs → Memᴰ x ys
  Memᴰ-perm nil m = elim m [ ]
  Memᴰ-perm (cons e d) (head h) = head (h ∙ e)
  Memᴰ-perm (cons e d) (tail m) = tail (Memᴰ-perm d m)
  Memᴰ-perm (swap e e') (head h) = tail (head (h ∙ e))
  Memᴰ-perm (swap e e') (tail (head h)) = head (h ∙ e')
  Memᴰ-perm (swap e e') (tail (tail m)) = tail (tail m)
  Memᴰ-perm (trans d d') m = Memᴰ-perm d' (Memᴰ-perm d m)

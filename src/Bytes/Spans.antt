-- ===== src/Bytes/Spans.antt =====
-- The first `d` of a text, and what stands before it.
use f.Prelude.{
  ℕ, ◌+◌, ◌≤◌, ◌≡◌, ◌≢◌, refl, none, some, [], ◌∷◌, ◌++◌, length, take, drop, All, arith,
}
use native.Mathlib.Numerals.{add-one}
use f.Bytes.{Bytes, find, before, from}

-- The text is empty or begins with `d`.
abbrev pub EndsAt : ℕ → Bytes → Type 0
EndsAt d [] = Unit
EndsAt d (c ∷ _) = c ≡ d

abbrev pub Free : ℕ → Bytes → Type 0
Free d = All (λ c. c ≢ d)

module _ (d : ℕ) where
  pub before-Free : (s : Bytes) → Free d (before d s)
  unfolding before
  before-Free [] = tt
  before-Free (c ∷ s) = ground (arith, before-Free s)

  pub from-EndsAt : (s : Bytes) → EndsAt d (from d s)
  unfolding from
  from-EndsAt [] = tt
  from-EndsAt (c ∷ s) = ground (arith, from-EndsAt s)

  pub before-append-from : (s : Bytes) → before d s ++ from d s ≡ s
  unfolding before from
  before-append-from [] = refl
  before-append-from (c ∷ s) = ground (arith, before-append-from s)

  pub length-from-le : (s : Bytes) → length (from d s) ≤ length s
  unfolding from
  length-from-le [] = omega arith
  length-from-le (c ∷ s) = ground (arith, length-from-le s)

  pub before-append : (s t : Bytes) → Free d s → EndsAt d t → before d (s ++ t) ≡ s
  unfolding before
  before-append [] [] h e = refl
  before-append [] (c ∷ t) h e = ground arith
  before-append (c ∷ s) t (p, h) e = ground (arith, before-append s t h e)

  pub from-append : (s t : Bytes) → Free d s → EndsAt d t → from d (s ++ t) ≡ t
  unfolding from
  from-append [] [] h e = refl
  from-append [] (c ∷ t) h e = ground arith
  from-append (c ∷ s) t (p, h) e = ground (arith, from-append s t h e)

  pub find-append : (s t : Bytes) → Free d s → find d (s ++ d ∷ t) ≡ some (length s)
  unfolding find
  find-append [] t h = ground arith
  find-append (c ∷ s) t (p, h) = ground (arith, find-append s t h)

  pub find-none : (s : Bytes) → Free d s → find d s ≡ none
  unfolding find
  find-none [] h = refl
  find-none (c ∷ s) (p, h) = ground (arith, find-none s h)

pub take-length-append : (s t : Bytes) → take (length s) (s ++ t) ≡ s
take-length-append [] t = refl
take-length-append (c ∷ s) t = rw (take-length-append s t)

pub drop-length-append : (s t : Bytes) → drop (length s) (s ++ t) ≡ t
drop-length-append [] t = refl
drop-length-append (c ∷ s) t = drop-length-append s t

pub drop-suc-length-append : (s : Bytes) (c : ℕ) (t : Bytes) → drop (length s + 1) (s ++ c ∷ t) ≡ t
drop-suc-length-append [] c t = refl
drop-suc-length-append (x ∷ s) c t = rw add-one (rw add-one at (drop-suc-length-append s c t))

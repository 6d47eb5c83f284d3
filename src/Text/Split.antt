-- ===== src/Text/Split.antt =====
-- `split_string` cuts at the first delimiter.
use f.Prelude.{ℕ, ◌≡◌, ◌⊎◌, refl, [], ◌∷◌, ◌++◌, inl, inr, arith, append-nil}
use f.Bytes.{Bytes, before, from}
use f.Bytes.Spans.{
  Free, EndsAt, find-append, find-none, take-length-append, drop-suc-length-append, before-Free,
  from-EndsAt, before-append-from,
}
use f.Text.{split_string}

-- What stands before and behind a delimiter is what is returned, where the head is free of it.
pub split_string-append :
    (d : ℕ) (head tail : Bytes) → Free d head → split_string (head ++ d ∷ tail) d ≡ (head, tail)
unfolding split_string
split_string-append d head tail h =
    rw (find-append d head tail h, split_string) (rw (take-length-append, drop-suc-length-append))

pub split_string_absent : (d : ℕ) (s : Bytes) → Free d s → split_string s d ≡ (s, [])
unfolding split_string
split_string_absent d s h = ground (arith, find-none d s h)

-- The head and the tail of `s`.
abbrev pub IsSplit : ℕ → Bytes → Bytes × Bytes → Type 0
IsSplit d s (head, tail) = Free d head × ((s ≡ head ++ d ∷ tail) ⊎ ((s ≡ head) × (tail ≡ [])))

append-IsSplit :
    (d : ℕ) (head rest : Bytes)
    → Free d head
    → EndsAt d rest
    → IsSplit d (head ++ rest) (split_string (head ++ rest) d)
append-IsSplit d head [] h e = rw (append-nil, split_string_absent d head h) (h, inr (refl, refl))
append-IsSplit d head (c ∷ rest) h e = rw (e, split_string-append d head rest h) (h, inl refl)

-- Every text is split into a head with no delimiter, and the tail behind the first one; a text with
-- no delimiter is all head, and the tail is empty.
split_string-IsSplit : (d : ℕ) (s : Bytes) → IsSplit d s (split_string s d)
split_string-IsSplit d s =
    rw before-append-from at
      (append-IsSplit d (before d s) (from d s) (before-Free d s) (from-EndsAt d s))

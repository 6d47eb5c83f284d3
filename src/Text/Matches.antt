-- ===== src/Text/Matches.antt =====
-- When a path matches a pattern, as a relation, and that `match_pattern` decides it.
use f.Prelude.{
  ℕ, zero, suc, ◌≤◌, ◌≡◌, ◌≢◌, ◌↔◌, refl, sym, ◌∙◌, true, List, [], ◌∷◌, ◌++◌, ◌==◌, ap, length,
  length-append, Bool-cases, inl, inr, arith, ==_iff,
}
use f.Bytes.{Bytes, before, from}
use f.Bytes.Spans.{
  Free, EndsAt, before-Free, from-EndsAt, before-append-from, length-from-le, before-append,
  from-append,
}
use f.Map.{Map, insert, insert_all}
use f.Text.{finish, match_from, match_pattern}

-- `Matches p i bs`: the input `i` matches the pattern `p`, and the parameters stand for `bs`, in
-- order. A parameter takes a whole segment of the input up to a slash or the end, and none is taken
-- where the input is used up; one slash may follow at the very end.
pub data Matches : Bytes → Bytes → List (Bytes × Bytes) → Type 0 where
  done : Matches [] [] []
  slash : {c : ℕ} → c ≡ b'/' → Matches [] (c ∷ []) []
  literal :
      {c : ℕ} {p i : Bytes} {bs : List (Bytes × Bytes)}
      → c ≢ b':'
      → Matches p i bs
      → Matches (c ∷ p) (c ∷ i) bs
  capture :
      {c : ℕ} {q s : Bytes} (name value p i : Bytes) {bs : List (Bytes × Bytes)}
      → c ≡ b':'
      → q ≡ name ++ p
      → s ≡ value ++ i
      → s ≢ []
      → Free b'/' name
      → Free b'/' value
      → EndsAt b'/' p
      → EndsAt b'/' i
      → Matches p i bs
      → Matches (c ∷ q) s ((name, value) ∷ bs)

match_from_nil : (fuel : ℕ) (i : Bytes) (m : Map) → match_from fuel [] i m ≡ finish [] i m
unfolding match_from
match_from_nil zero i m = refl
match_from_nil (suc fuel) i m = refl

-- One round at a parameter.
match_from_capture :
    (fuel c : ℕ) (q s : Bytes) (m : Map)
    → c ≡ b':'
    → s ≢ []
    → match_from (suc fuel) (c ∷ q) s m
      ≡ match_from fuel (from b'/' q) (from b'/' s) (insert (before b'/' q) (before b'/' s) m)
unfolding match_from
match_from_capture fuel c q [] m e ne = absurd (ne refl)
match_from_capture fuel c q (y ∷ s) m e ne = rw e refl

match_from_complete :
    {p i : Bytes} {bs : List (Bytes × Bytes)} (fuel : ℕ) (m : Map)
    → Matches p i bs
    → length p ≤ fuel
    → match_from fuel p i m ≡ (true, insert_all bs m)
match_from_complete fuel m done h = match_from_nil fuel [] m
match_from_complete fuel m (slash {c} e) h = match_from_nil fuel (c ∷ []) m ∙ ground arith
match_from_complete zero m (literal ne k) h = elim h [ ]
match_from_complete (suc fuel) m (literal {c} {p} {i} {bs} ne k) h =
    step (match_from_complete fuel m k (omega arith))
  where
    step :
        match_from fuel p i m ≡ (true, insert_all bs m)
        → match_from (suc fuel) (c ∷ p) (c ∷ i) m ≡ (true, insert_all bs m)
    step ih = unfold match_from in ground arith
match_from_complete zero m (capture name value p i e eq es ne fn fv ep ei k) h = elim h [ ]
match_from_complete (suc fuel) m (capture {c} {q} {s} name value p i {bs} e eq es ne fn fv ep ei k)
      h =
    match_from_capture fuel c q s m e ne
    ∙ rw
        (
          eq,
          es,
          before-append b'/' name p fn ep,
          before-append b'/' value i fv ei,
          from-append b'/' name p fn ep,
          from-append b'/' value i fv ei,
        )
        (match_from_complete fuel (insert name value m) k
          (omega (arith, ap length eq, length-append name p)))

-- What a `true` result says: the parameters are those of a match, put into the map in order.
abbrev Found : Bytes → Bytes → Map → Map → Type 0
Found p i m m' = (bs : List (Bytes × Bytes)) × Matches p i bs × (m' ≡ insert_all bs m)

finish-Found : (p i : Bytes) (m : Map) {m' : Map} → finish p i m ≡ (true, m') → Found p i m m'
finish-Found [] [] m e = ([], done, ground arith)
finish-Found [] (c ∷ []) m e = ([], slash (ground arith), ground arith)
finish-Found [] (c ∷ d ∷ i) m e = ground arith
finish-Found (c ∷ p) i m e = ground arith

literal-Found :
    (c d : ℕ) {p i : Bytes} {m m' : Map}
    → c ≢ b':'
    → c ≡ d
    → Found p i m m'
    → Found (c ∷ p) (d ∷ i) m m'
literal-Found c d ne same (bs, k, e) = (bs, rw (← same) (literal ne k), e)

capture-Found :
    (c : ℕ) (q s : Bytes) {m m' : Map}
    → c ≡ b':'
    → s ≢ []
    → Found (from b'/' q) (from b'/' s) (insert (before b'/' q) (before b'/' s) m) m'
    → Found (c ∷ q) s m m'
capture-Found c q s colon ne (bs, k, e) = (
  (before b'/' q, before b'/' s) ∷ bs,
  capture (before b'/' q) (before b'/' s) (from b'/' q) (from b'/' s) colon
      (sym (before-append-from b'/' q)) (sym (before-append-from b'/' s)) ne (before-Free b'/' q)
      (before-Free b'/' s) (from-EndsAt b'/' q) (from-EndsAt b'/' s) k,
  e,
)

match_from_sound :
    (fuel : ℕ) (p i : Bytes) (m : Map) {m' : Map}
    → length p ≤ fuel
    → match_from fuel p i m ≡ (true, m')
    → Found p i m m'
unfolding match_from
match_from_sound zero [] i m h e = finish-Found [] i m e
match_from_sound zero (x ∷ p) i m h e = elim h [ ]
match_from_sound (suc fuel) [] i m h e = finish-Found [] i m e
match_from_sound (suc fuel) (x ∷ p) [] m h e = finish-Found (x ∷ p) [] m e
match_from_sound (suc fuel) (x ∷ p) (y ∷ i) m h e = elim (Bool-cases (x == b':')) [
  | inl colon ↦
      let c = (==_iff x b':').0 colon in
      capture-Found x p (y ∷ i) c (λ z. cc)
        (match_from_sound fuel (from b'/' p) (from b'/' (y ∷ i)) _
          (omega (arith, length-from-le b'/' p))
          (sym (match_from_capture fuel x p (y ∷ i) m c (λ z. cc)) ∙ e))
  | inr other ↦ elim (Bool-cases (x == y)) [
    | inl same ↦
        literal-Found x y (ground arith) ((==_iff x y).0 same)
          (match_from_sound fuel p i m (omega arith) (rw (other, same) at e))
    | inr differs ↦ ground arith
  ]
]

-- `match_pattern` returns true and leaves `m` in `params` exactly when the input matches the
-- pattern; `m` then holds the parameters of that match, the last value for a name that stands twice.
pub match_pattern_iff :
    (pattern input : Bytes) (m : Map)
    → (match_pattern pattern input ≡ (true, m))
      ↔ ((bs : List (Bytes × Bytes)) × Matches pattern input bs × (m ≡ insert_all bs []))
unfolding match_pattern
match_pattern_iff pattern input m = (
  match_from_sound (length pattern) pattern input [] (omega arith),
  λ (bs, k, e). match_from_complete (length pattern) [] k (omega arith) ∙ rw e,
)

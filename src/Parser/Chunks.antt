-- ===== src/Parser/Chunks.antt =====
-- The parser over input that comes in pieces, as a connection feeds it.
use f.Prelude.{◌≡◌, refl, [], ◌∷◌, ◌++◌, arith}
use f.Bytes.{Bytes}
use f.Http.{HttpRequest}
use f.Parser.{State, good, bad, indeterminate, ok, fault, ◌>>=◌, Consumed, continue, consume, parse}

-- Parsing two pieces one after the other, from the state and the request that the first one leaves,
-- gives what parsing them at once gives; a result of the first piece is final, and the second is
-- then not read.
pub parse-append :
    (s : State) (req : HttpRequest) (xs ys : Bytes)
    → parse s req (xs ++ ys) ≡ (
        parse s req xs >>= λ (s', req', result, rest).
        continue result s' req' (rest ++ ys) (parse s' req' ys))
unfolding parse
parse-append s req [] ys = refl
parse-append s req (c ∷ cs) ys = round (consume s req c) (λ s' req'. parse-append s' req' cs ys)
  where
    round :
        (m : Consumed)
        → ((s' : State) (req' : HttpRequest)
            → parse s' req' (cs ++ ys) ≡ (
                parse s' req' cs >>= λ (t, r, result, rest).
                continue result t r (rest ++ ys) (parse t r ys)))
        → (m >>= λ (s', req', result).
            continue result s' req' (cs ++ ys) (parse s' req' (cs ++ ys)))
          ≡ ((m >>= λ (s', req', result). continue result s' req' cs (parse s' req' cs))
              >>= λ (s', req', result, rest).
                  continue result s' req' (rest ++ ys) (parse s' req' ys))
    round (fault e) ih = refl
    round (ok (s', req', good)) ih = refl
    round (ok (s', req', bad)) ih = refl
    round (ok (s', req', indeterminate)) ih = ih s' req'

-- The bytes that one call of `parse` reads up to a `good` result, and what it does before any tail.
abbrev pub ReadsGood : State → HttpRequest → Bytes → State → HttpRequest → Bytes → Type 0
ReadsGood s req xs s' req' rest =
    (used : Bytes) × (xs ≡ used ++ rest)
    × ((tail : Bytes) → parse s req (used ++ tail) ≡ ok (s', req', good, tail))

-- A `good` parse has read a prefix of its input and left the rest, and the bytes behind that prefix
-- do not count: with any other tail the same request is found, and that tail is left.
parse-good-ReadsGood :
    (s : State) (req : HttpRequest) (xs : Bytes) {s' : State} {req' : HttpRequest} {rest : Bytes}
    → parse s req xs ≡ ok (s', req', good, rest)
    → ReadsGood s req xs s' req' rest
unfolding parse
parse-good-ReadsGood s req [] e = cc
parse-good-ReadsGood s req (c ∷ cs) {s' = t} {req' = r} {rest} e =
    round (consume s req c) refl e (λ t' r' w. parse-good-ReadsGood t' r' cs w)
  where
    round :
        (m : Consumed)
        → consume s req c ≡ m
        → (m >>= λ (t', r', result). continue result t' r' cs (parse t' r' cs))
          ≡ ok (t, r, good, rest)
        → ((t' : State) (r' : HttpRequest)
            → parse t' r' cs ≡ ok (t, r, good, rest)
            → ReadsGood t' r' cs t r rest)
        → ReadsGood s req (c ∷ cs) t r rest
    round (fault f) m w ih = cc
    round (ok (t', r', good)) m w ih = (c ∷ [], ground arith, λ tail. rw (m, parse) (ground arith))
    round (ok (t', r', bad)) m w ih = ground arith
    round (ok (t', r', indeterminate)) m w ih =
        let (used, splits, reads) = ih t' r' w in
        (c ∷ used, rw splits, λ tail. rw (m, parse) (reads tail))

-- ===== src/Text.antt =====
-- lib/string.hpp.
pub mod Split
pub mod Matches
pub mod Routes
mod Tests
use f.Prelude.{
  ℕ, zero, suc, ◌+◌, Bool, true, false, ◌&&◌, ◌||◌, none, some, List, [], ◌∷◌, ◌==◌, if◌then◌else◌,
  length, take, drop,
}
use f.Bytes.{Bytes, find, before, from}
use f.Map.{Map, insert}

-- `substr` takes and drops, and a delimiter that is not there leaves an empty tail.
unfoldable pub split_string : Bytes → ℕ → Bytes × Bytes
unfolding find
split_string input delim = elim (find delim input) [
  | some pos ↦ (take pos input, drop (pos + 1) input)
  | none ↦ (input, [])
]

abbrev pub is_end : Bytes → Bool
is_end [] = true
is_end (_ ∷ _) = false

-- `input_pos + 1 == input.size() && input.back() == '/'`, of the input from `input_pos` on
abbrev pub is_slash : Bytes → Bool
is_slash [] = false
is_slash (c ∷ i) = is_end i && c == b'/'

-- The `return` behind the loop.
abbrev pub finish : Bytes → Bytes → Map → Bool × Map
finish p i m = (is_end p && (is_end i || is_slash i), m)

-- The loop of `match_pattern`: `p` is the pattern from `pattern_pos` on, and `i` the input from
-- `input_pos` on. A name runs from behind the colon to the next slash, a value from `input_pos` to
-- the next slash, each to the end if there is none. The fuel bounds the length of `p`: a round
-- shortens `p`, so no round is left when the fuel is used up.
unfoldable pub match_from : ℕ → Bytes → Bytes → Map → Bool × Map
match_from zero p i m = finish p i m
match_from (suc fuel) [] i m = finish [] i m
match_from (suc fuel) (x ∷ p) [] m = finish (x ∷ p) [] m
match_from (suc fuel) (x ∷ p) (y ∷ i) m =
    let value = before b'/' (y ∷ i) in
    let captured =
      match_from fuel (from b'/' p) (from b'/' (y ∷ i)) (insert (before b'/' p) value m) in
    let next = match_from fuel p i m in
    if x == b':' then captured else if x == y then next else (false, m)

-- What the function returns, and what it leaves in `params`.
unfoldable pub match_pattern : Bytes → Bytes → Bool × Map
unfolding match_from
match_pattern pattern input = match_from (length pattern) pattern input []

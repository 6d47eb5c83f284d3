-- ===== src/Url.antt =====
-- lib/url.cpp.
pub mod Decodes
pub mod RoundTrip
mod Tests
use f.Prelude.{
  ℕ, ◌+◌, ◌-◌, ◌*◌, ◌%◌, Bool, true, false, ◌&&◌, ◌||◌, Option, none, some, List, [], ◌∷◌, ◌++◌,
  leb, ◌==◌, if◌then◌else◌,
}
use f.Bytes.{Bytes}

-- `std::isxdigit` in the "C" locale. For a byte from 0x80 the source gives it a negative `int` where
-- `char` is signed, which the standard leaves undefined: here the answer is no, as with glibc.
unfoldable pub isxdigit : ℕ → Bool
isxdigit c = leb b'0' c && leb c b'9' || leb b'A' c && leb c b'F' || leb b'a' c && leb c b'f'

unfoldable pub hex_digit : ℕ → ℕ
hex_digit c = if leb c b'9' then c - b'0' else if leb c b'F' then c - b'A' + 10 else c - b'a' + 10

-- `is >> std::hex >> value` on a text of two bytes: it fails where no digit stands at the front, and
-- stops at the first byte that is none.
unfoldable pub read_hex : ℕ → ℕ → Option ℕ
read_hex a b =
    if isxdigit a
    then some (if isxdigit b then hex_digit a * 16 + hex_digit b else hex_digit a)
    else none

-- The loop of `url_decode`: `out` so far, and the input from `in[i]` on. The result is what the
-- function returns and what it leaves in `out`.
unfoldable pub decode_from : Bytes → Bytes → Bool × Bytes
decode_from out [] = (true, out)
decode_from out (c ∷ []) =
    if c == b'%' then (false, out) else (true, out ++ (if c == b'+' then b' ' else c) ∷ [])
decode_from out (c ∷ a ∷ []) =
    let next = decode_from (out ++ (if c == b'+' then b' ' else c) ∷ []) (a ∷ []) in
    if c == b'%' then (false, out) else next
decode_from out (c ∷ a ∷ b ∷ rest) =
    let escaped = λ (value : ℕ). decode_from (out ++ (value % 256) ∷ []) rest in
    let next = decode_from (out ++ (if c == b'+' then b' ' else c) ∷ []) (a ∷ b ∷ rest) in
    if c == b'%'
    then (if isxdigit a && isxdigit b
        then elim (read_hex a b) [ some value ↦ escaped value | none ↦ (false, out) ]
        else (false, out))
    else next

unfoldable pub url_decode : Bytes → Bool × Bytes
url_decode input = decode_from [] input

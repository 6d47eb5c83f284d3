-- ===== src/Parser/Chars.antt =====
-- lib/request_parser.cpp: the classes of characters.
use f.Prelude.{ℕ, Bool, not, ◌&&◌, ◌||◌, leb, ◌==◌}

-- The tests take an `int`. A byte above 127 arrives there above 127, or below 0 where `char` is
-- signed; the first three tests answer alike for the two readings, and so does `is_digit`.
unfoldable pub is_char : ℕ → Bool
is_char c = leb c 127

unfoldable pub is_ctl : ℕ → Bool
is_ctl c = leb c 31 || c == 127

unfoldable pub is_tspecial : ℕ → Bool
is_tspecial c =
    c == b'('
    || c == b')'
    || c == b'<'
    || c == b'>'
    || c == b'@'
    || c == b','
    || c == b';'
    || c == b':'
    || c == b'\\'
    || c == b'"'
    || c == b'/'
    || c == b'['
    || c == b']'
    || c == b'?'
    || c == b'='
    || c == b'{'
    || c == b'}'
    || c == b' '
    || c == b'\t'

unfoldable pub is_digit : ℕ → Bool
is_digit c = leb b'0' c && leb c b'9'

-- The test `!is_char(input) || is_ctl(input) || is_tspecial(input)` of three states.
unfoldable pub is_not_token : ℕ → Bool
unfolding is_char is_ctl is_tspecial
is_not_token c = not (is_char c) || is_ctl c || is_tspecial c

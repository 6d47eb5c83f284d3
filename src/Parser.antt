-- ===== src/Parser.antt =====
-- lib/request_parser.hpp and lib/request_parser.cpp.
pub mod Chars
pub mod Chunks
pub mod Runs
pub mod Versions
pub mod Sound
pub mod RoundTrip
mod Tests
unfoldable pub use Chars.{is_char, is_ctl, is_tspecial, is_digit, is_not_token}
use f.Prelude.{
  ◌≡◌, ℕ, ◌+◌, ◌-◌, ◌*◌, Bool, not, true, false, ◌&&◌, ◌||◌, List, [], ◌∷◌, ◌++◌, ltb, leb, ◌==◌,
  if◌then◌else◌,
}
use f.Bytes.{Bytes}
use f.Http.{Header, HttpRequest}

-- `enum state`
pub data State : Type 0 where
  method_start method uri : State
  http_version_h http_version_t_1 http_version_t_2 http_version_p http_version_slash : State
  http_version_major_start http_version_major http_version_minor_start http_version_minor : State
  expecting_newline_1 header_line_start header_lws header_name space_before_header_value : State
  header_value expecting_newline_2 expecting_newline_3 : State

-- `enum result_type`
pub data ResultType : Type 0 where
  good bad indeterminate : ResultType

-- What C++ leaves undefined on this code's path: a signed overflow, and `back()` of an empty vector.
pub data Fault : Type 0 where
  int_overflow back_of_empty : Fault

pub data Checked {ℓ} (A : Type ℓ) : Type ℓ where
  ok : A → Checked A
  fault : Fault → Checked A

pub ok_injective {ℓ} : {A : Type ℓ} {a b : A} → ok a ≡ ok b → a ≡ b
ok_injective e = cc e

infixl 5 ◌>>=◌
abbrev pub ◌>>=◌ {ℓ κ} : {A : Type ℓ} {B : Type κ} → Checked A → (A → Checked B) → Checked B
ok a >>= k = k a
fault e >>= k = fault e

-- INT_MAX of a 32-bit `int`
abbrev pub int_max : ℕ
int_max = 2147483647

abbrev pub Consumed : Type 0
Consumed = Checked (State × HttpRequest × ResultType)

-- `return indeterminate`, after the assignment to `state_`
abbrev pub goto : State → HttpRequest → Consumed
goto s req = ok (s, req, indeterminate)

-- `return bad`
abbrev pub reject : State → HttpRequest → Consumed
reject s req = ok (s, req, bad)

-- `v * 10 + input - '0'`: the sum is made before the difference.
unfoldable pub append_digit : ℕ → ℕ → Checked ℕ
append_digit v c = if ltb int_max (v * 10 + c) then fault int_overflow else ok (v * 10 + c - b'0')

-- A change of `headers.back()`
unfoldable pub update_back : (Header → Header) → List Header → Checked (List Header)
update_back change [] = fault back_of_empty
update_back change (h ∷ []) = ok (change h ∷ [])
update_back change (h ∷ hs) = do hs' ← update_back change hs; ok (h ∷ hs')

abbrev pub push_name : ℕ → Header → Header
push_name c h = record h { name = h.name ++ c ∷ [] }

abbrev pub push_value : ℕ → Header → Header
push_value c h = record h { value = h.value ++ c ∷ [] }

abbrev pub is_empty : List Header → Bool
is_empty [] = true
is_empty (_ ∷ _) = false

-- The cases of `consume`, one for each state.
abbrev pub at_method_start : HttpRequest → ℕ → Consumed
at_method_start req c =
    if is_not_token c
    then reject method_start req
    else goto method (record req { method = req.method ++ c ∷ [] })

abbrev pub at_method : HttpRequest → ℕ → Consumed
at_method req c =
    if c == b' '
    then goto uri req
    else if is_not_token c
    then reject method req
    else goto method (record req { method = req.method ++ c ∷ [] })

abbrev pub at_uri : HttpRequest → ℕ → Consumed
at_uri req c =
    if c == b' '
    then goto http_version_h req
    else if is_ctl c
    then reject uri req
    else goto uri (record req { uri = req.uri ++ c ∷ [] })

abbrev pub at_http_version_h : HttpRequest → ℕ → Consumed
at_http_version_h req c = if c == b'H' then goto http_version_t_1 req else reject http_version_h req

abbrev pub at_http_version_t_1 : HttpRequest → ℕ → Consumed
at_http_version_t_1 req c =
    if c == b'T' then goto http_version_t_2 req else reject http_version_t_1 req

abbrev pub at_http_version_t_2 : HttpRequest → ℕ → Consumed
at_http_version_t_2 req c =
    if c == b'T' then goto http_version_p req else reject http_version_t_2 req

abbrev pub at_http_version_p : HttpRequest → ℕ → Consumed
at_http_version_p req c =
    if c == b'P' then goto http_version_slash req else reject http_version_p req

abbrev pub at_http_version_slash : HttpRequest → ℕ → Consumed
at_http_version_slash req c =
    if c == b'/'
    then goto http_version_major_start
        (record req { http_version_major = 0; http_version_minor = 0 })
    else reject http_version_slash req

abbrev pub at_http_version_major_start : HttpRequest → ℕ → Consumed
at_http_version_major_start req c =
    if is_digit c
    then (do
      v ← append_digit req.http_version_major c
      goto http_version_major (record req { http_version_major = v }))
    else reject http_version_major_start req

abbrev pub at_http_version_major : HttpRequest → ℕ → Consumed
at_http_version_major req c =
    if c == b'.'
    then goto http_version_minor_start req
    else if is_digit c
    then (do
      v ← append_digit req.http_version_major c
      goto http_version_major (record req { http_version_major = v }))
    else reject http_version_major req

abbrev pub at_http_version_minor_start : HttpRequest → ℕ → Consumed
at_http_version_minor_start req c =
    if is_digit c
    then (do
      v ← append_digit req.http_version_minor c
      goto http_version_minor (record req { http_version_minor = v }))
    else reject http_version_minor_start req

abbrev pub at_http_version_minor : HttpRequest → ℕ → Consumed
at_http_version_minor req c =
    if c == b'\r'
    then goto expecting_newline_1 req
    else if is_digit c
    then (do
      v ← append_digit req.http_version_minor c
      goto http_version_minor (record req { http_version_minor = v }))
    else reject http_version_minor req

abbrev pub at_expecting_newline_1 : HttpRequest → ℕ → Consumed
at_expecting_newline_1 req c =
    if c == b'\n' then goto header_line_start req else reject expecting_newline_1 req

abbrev pub at_header_line_start : HttpRequest → ℕ → Consumed
at_header_line_start req c =
    if c == b'\r'
    then goto expecting_newline_3 req
    else if not (is_empty req.headers) && (c == b' ' || c == b'\t')
    then goto header_lws req
    else if is_not_token c
    then reject header_line_start req
    else goto header_name
        (record req { headers = req.headers ++ (record { name = c ∷ []; value = [] }) ∷ [] })

abbrev pub at_header_lws : HttpRequest → ℕ → Consumed
at_header_lws req c =
    if c == b'\r'
    then goto expecting_newline_2 req
    else if c == b' ' || c == b'\t'
    then goto header_lws req
    else if is_ctl c
    then reject header_lws req
    else (do
      hs ← update_back (push_value c) req.headers
      goto header_value (record req { headers = hs }))

abbrev pub at_header_name : HttpRequest → ℕ → Consumed
at_header_name req c =
    if c == b':'
    then goto space_before_header_value req
    else if is_not_token c
    then reject header_name req
    else (do
      hs ← update_back (push_name c) req.headers
      goto header_name (record req { headers = hs }))

abbrev pub at_space_before_header_value : HttpRequest → ℕ → Consumed
at_space_before_header_value req c =
    if c == b' ' then goto header_value req else reject space_before_header_value req

abbrev pub at_header_value : HttpRequest → ℕ → Consumed
at_header_value req c =
    if c == b'\r'
    then goto expecting_newline_2 req
    else if is_ctl c
    then reject header_value req
    else (do
      hs ← update_back (push_value c) req.headers
      goto header_value (record req { headers = hs }))

abbrev pub at_expecting_newline_2 : HttpRequest → ℕ → Consumed
at_expecting_newline_2 req c =
    if c == b'\n' then goto header_line_start req else reject expecting_newline_2 req

abbrev pub at_expecting_newline_3 : HttpRequest → ℕ → Consumed
at_expecting_newline_3 req c = ok (expecting_newline_3, req, if c == b'\n' then good else bad)

-- `request_parser::consume`; the parser is its `state_`.
unfoldable pub consume : State → HttpRequest → ℕ → Consumed
consume method_start req c = at_method_start req c
consume method req c = at_method req c
consume uri req c = at_uri req c
consume http_version_h req c = at_http_version_h req c
consume http_version_t_1 req c = at_http_version_t_1 req c
consume http_version_t_2 req c = at_http_version_t_2 req c
consume http_version_p req c = at_http_version_p req c
consume http_version_slash req c = at_http_version_slash req c
consume http_version_major_start req c = at_http_version_major_start req c
consume http_version_major req c = at_http_version_major req c
consume http_version_minor_start req c = at_http_version_minor_start req c
consume http_version_minor req c = at_http_version_minor req c
consume expecting_newline_1 req c = at_expecting_newline_1 req c
consume header_line_start req c = at_header_line_start req c
consume header_lws req c = at_header_lws req c
consume header_name req c = at_header_name req c
consume space_before_header_value req c = at_space_before_header_value req c
consume header_value req c = at_header_value req c
consume expecting_newline_2 req c = at_expecting_newline_2 req c
consume expecting_newline_3 req c = at_expecting_newline_3 req c

-- `request_parser::reset`, and the state that the constructor leaves
abbrev pub reset : State
reset = method_start

-- What `parse` leaves: the state, the request, the result, and the bytes from its iterator on.
abbrev pub Parsed : Type 0
Parsed = Checked (State × HttpRequest × ResultType × Bytes)

-- One round of the loop: `more` is the next round.
abbrev pub continue : ResultType → State → HttpRequest → Bytes → Parsed → Parsed
continue good s req rest more = ok (s, req, good, rest)
continue bad s req rest more = ok (s, req, bad, rest)
continue indeterminate s req rest more = more

-- `request_parser::parse`
unfoldable pub parse : State → HttpRequest → Bytes → Parsed
parse s req [] = ok (s, req, indeterminate, [])
parse s req (c ∷ cs) = do
  (s', req', result) ← consume s req c
  let more = parse s' req' cs
  continue result s' req' cs more

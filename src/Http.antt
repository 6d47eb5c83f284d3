-- ===== src/Http.antt =====
-- lib/header.hpp and lib/http_request.hpp.
use f.Prelude.{ℕ, ◌+◌, ◌&&◌, List, [], ◌∷◌, map, leb, if◌then◌else◌}
use f.Bytes.{Bytes, equal}

-- `struct header`
pub record Header : Type 0 where
  pub name : Bytes
  pub value : Bytes

-- `struct http_request`. The two versions are `int`s that are never negative.
pub record HttpRequest : Type 0 where
  pub method : Bytes
  pub uri : Bytes
  pub http_version_major : ℕ
  pub http_version_minor : ℕ
  pub headers : List Header

-- `http_request{}`
abbrev pub empty_request : HttpRequest
empty_request = record {
  method = [];
  uri = [];
  http_version_major = 0;
  http_version_minor = 0;
  headers = [];
}

-- `std::tolower` in the "C" locale
unfoldable pub tolower : ℕ → ℕ
tolower c = if leb b'A' c && leb c b'Z' then c + 32 else c

-- The loop of `get_header`: the value of the first header whose name in lower case is `name`.
unfoldable pub find_header : Bytes → List Header → Bytes
find_header name [] = []
find_header name (h ∷ hs) = if equal (map tolower h.name) name then h.value else find_header name hs

unfoldable pub get_header : HttpRequest → Bytes → Bytes
unfolding find_header equal tolower
get_header req name = find_header name req.headers

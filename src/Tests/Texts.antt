-- ===== src/Tests/Texts.antt =====
-- The theorems on texts at concrete inputs.
use f.Prelude.{ℕ, ◌<◌, ◌≡◌, ◌↔◌, [], ◌∷◌, List, arith, All, Bool, true, ◌&&◌, leb}
use f.Bytes.{Bytes, codes}
use f.Bytes.Spans.{Free}
use f.Map.{insert_all}
use f.Request.{query}
use f.Text.{match_pattern}
use f.Text.Matches.{Matches, match_pattern_iff}
use f.Text.Routes.{Segment, fixed, param, path, IsSegment}
use f.Url.{url_decode}
use f.Url.Decodes.{Decodes, url_decode_iff}
use f.Dynamic.{written, DynamicContent, get, json, write}
use f.Dynamic.Query.{IsParam}

match_pattern_iff_example :
    (match_pattern (codes "/user/:id") (codes "/user/123/")
      ≡ (true, (codes "id", codes "123") ∷ []))
    ↔ ((bs : List (Bytes × Bytes)) × Matches (codes "/user/:id") (codes "/user/123/") bs
        × ((codes "id", codes "123") ∷ [] ≡ insert_all bs []))
match_pattern_iff_example =
    match_pattern_iff (codes "/user/:id") (codes "/user/123/") ((codes "id", codes "123") ∷ [])

url_decode_iff_example :
    (url_decode (codes "%48e+") ≡ (true, codes "He ")) ↔ Decodes (codes "%48e+") (codes "He ")
url_decode_iff_example = url_decode_iff (codes "%48e+") (codes "He ")

-- What an encoder may keep: lower-case letters and slashes.
abbrev pub kept : ℕ → Bool
kept c = leb b'a' c && leb c b'z'

spaced-bytes : All (λ c. c < 256) (codes "a b+c")
spaced-bytes = ground arith

-- `/user/:id`, with 42 for `id`.
abbrev pub user_route : List Segment
user_route = fixed (codes "user") ∷ param (codes "id") (codes "42") ∷ []

pub user_route-IsSegment : All IsSegment user_route
user_route-IsSegment = ground arith

abbrev pub pairs : List (Bytes × Bytes)
pairs = (codes "name", codes "Ada") ∷ (codes "lang", codes "en=gb") ∷ []

pub pairs-IsParam : All IsParam pairs
pairs-IsParam = ground arith

-- A handler that writes back a parameter of the query, as JSON.
abbrev pub greeter : DynamicContent
greeter = get (λ req res. written (write (query req (codes "name")) (json res)))

pub user_path-no_query : Free b'?' (path user_route [])
user_path-no_query = ground arith

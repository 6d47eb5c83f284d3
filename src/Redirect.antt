-- ===== src/Redirect.antt =====
-- src/server/main.cpp: the handler of a server entry with a `return` section.
pub mod Headers
pub mod Expand
pub mod Values
use mathlib.Core.Option
use f.Prelude.{
  ℕ, ◌-◌, Bool, true, false, ◌||◌, Option, none, some, List, [], ◌∷◌, ◌++◌, length, drop,
  if◌then◌else◌,
}
use f.Bytes.{Bytes, codes, starts_with, before}
use f.Http.{Header, HttpRequest, get_header}
use f.Connection.{RequestHandler}
use f.Reply.{Handled, replied, raised}
use f.Json.{Result, ok, throw, ◌>>=◌, JsonApi}
use f.Mime.{extension_to_type}
use f.Reply.{Reply, Status, bad_request, framing, stock_reply}

-- `s.find(text) != npos`
unfoldable pub contains : Bytes → Bytes → Bool
contains text [] = starts_with text []
contains text (c ∷ s) = starts_with text (c ∷ s) || contains text s

-- `s.replace(s.find(text), text.size(), by)`, where `text` is found.
unfoldable pub replace : Bytes → Bytes → Bytes → Bytes
replace text by [] = by
replace text by (c ∷ s) =
    let rest = replace text by s in
    if starts_with text (c ∷ s) then by ++ drop (length text) (c ∷ s) else c ∷ rest

abbrev pub host_name : Bytes
host_name = codes "$host"

abbrev pub uri_name : Bytes
uri_name = codes "$request_uri"

-- The second replacement.
unfoldable pub put_uri : HttpRequest → Bytes → Bytes
put_uri req value = if contains uri_name value then replace uri_name req.uri value else value

-- The first replacement, by the host of the request up to its colon; `none` is a missing host.
unfoldable pub put_host : Bytes → Bytes → Option Bytes
put_host [] value = if contains host_name value then none else some value
put_host (c ∷ host) value =
    some
      (if contains host_name value then replace host_name (before b':' (c ∷ host)) value else value)

-- The value of a header as it is sent.
unfoldable pub expand : HttpRequest → Bytes → Option Bytes
expand req value = Option.map (put_uri req) (put_host (get_header req (codes "host")) value)

-- The reply to a request that has no host.
abbrev pub missing_host : Reply
missing_host =
    let content = codes "Missing 'Host' header in the request" in
    record {
      status = bad_request;
      headers = framing content (extension_to_type (codes ".txt"));
      content = content;
    }

-- The name and the value of an entry: the last ones of the object.
abbrev pub last_item : Header → List Header → Header
last_item h [] = h
last_item h (x ∷ xs) = last_item x xs

abbrev pub item : List Header → Header
item xs = last_item (record { name = []; value = [] }) xs

-- The loop over the entries, with the header lists `res.headers` so far.
unfoldable pub add_headers : HttpRequest → List (List Header) → Reply → Reply
add_headers req [] res = res
add_headers req (e ∷ es) res = elim (expand req (item e).value) [
  | none ↦ missing_host
  | some value ↦ add_headers req es (record res {
    headers = res.headers ++ (record { name = (item e).name; value = value }) ∷ [];
  })
]

-- The handler, with the status and the headers of the configuration, where an entry is an object of
-- JSON whose values are texts.
unfoldable pub return_handler : Status → List (List Header) → HttpRequest → Reply → Reply
return_handler status headers req res = add_headers req headers (stock_reply status)

-- The same on the values of JSON.
module _ (api : JsonApi) where
  open api use {Json, get_string, elements, items}

  -- The loop over the items of an entry. An exception leaves it at a value that is no text.
  unfoldable pub read_item : List (Bytes × Json) → Header → Result Header
  read_item [] h = ok h
  read_item ((k, v) ∷ xs) h = do
    value ← get_string v
    read_item xs (record { name = k; value = value })

  -- The loop over the entries, with the reply so far.
  unfoldable pub add_entries : HttpRequest → List Json → Reply → Handled
  add_entries req [] res = replied res
  add_entries req (j ∷ js) res = elim (read_item (items j) (record { name = []; value = [] })) [
    | throw _ ↦ raised res
    | ok h ↦ elim (expand req h.value) [
      | none ↦ replied missing_host
      | some value ↦
          add_entries req js
            (record res { headers = res.headers ++ (record { name = h.name; value = value }) ∷ [] })
    ]
  ]

  unfoldable pub json_handler : Status → Json → RequestHandler
  unfolding add_entries
  json_handler status headers req res = add_entries req (elements headers) (stock_reply status)

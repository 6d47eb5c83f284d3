-- ===== src/Request.antt =====
-- lib/request.hpp: a request as a handler sees it.
use f.Prelude.{Option, some, none, []}
use f.Bytes.{Bytes}
use f.Http.{HttpRequest}
use f.Map.{Map, lookup, insert}

-- `struct request`
pub record Request : Type 0 where
  pub orig_request : HttpRequest
  pub resources : Map
  pub querystring : Map

-- The constructor from an `http_request`.
abbrev pub new_request : HttpRequest → Request
new_request r = record { orig_request = r; resources = []; querystring = [] }

unfoldable pub add_queryvalue : Bytes → Bytes → Request → Request
unfolding insert
add_queryvalue key value req = record req { querystring = insert key value req.querystring }

abbrev pub or_empty : Option Bytes → Bytes
or_empty (some v) = v
or_empty none = []

unfoldable pub resource : Request → Bytes → Bytes
unfolding lookup
resource req key = or_empty (lookup key req.resources)

unfoldable pub query : Request → Bytes → Bytes
unfolding lookup
query req key = or_empty (lookup key req.querystring)

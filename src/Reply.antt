-- ===== src/Reply.antt =====
-- lib/reply.hpp and lib/reply.cpp.
pub mod Tables
pub mod Wire
pub mod Outcomes
use f.Prelude.{
  ℕ, suc, Bool, true, false, Option, none, some, List, [], ◌∷◌, ◌++◌, length, if◌then◌else◌,
}
use f.Bytes.{Bytes, codes, equal}
use f.Bytes.Decimal.{to_string}
use f.Http.{Header}
use f.Map.{lookup}

-- `enum status_type`
pub data Status : Type 0 where
  ok created accepted no_content : Status
  multiple_choices moved_permanently moved_temporarily not_modified : Status
  bad_request unauthorized forbidden not_found : Status
  internal_server_error not_implemented bad_gateway service_unavailable gateway_timeout : Status
  http_version_not_supported : Status

-- The values of the enumerators.
unfoldable pub code_of : Status → ℕ
code_of ok = 200
code_of created = 201
code_of accepted = 202
code_of no_content = 204
code_of multiple_choices = 300
code_of moved_permanently = 301
code_of moved_temporarily = 302
code_of not_modified = 304
code_of bad_request = 400
code_of unauthorized = 401
code_of forbidden = 403
code_of not_found = 404
code_of internal_server_error = 500
code_of not_implemented = 501
code_of bad_gateway = 502
code_of service_unavailable = 503
code_of gateway_timeout = 504
code_of http_version_not_supported = 505

-- `struct reply`
pub record Reply : Type 0 where
  pub status : Status
  pub headers : List Header
  pub content : Bytes

-- What a request handler leaves in the reply: it has returned, or an exception leaves it.
pub data Handled : Type 0 where
  replied raised : Reply → Handled

-- What holds of the reply of a handler that has returned.
abbrev pub IfReplied {ℓ} : (Reply → Type ℓ) → Handled → Type ℓ
IfReplied P (replied r) = P r
IfReplied P (raised r) = Unit

-- What `serve_if_match` of a content leaves: `false`, with the reply as it is then, or `true` or an
-- exception, with the reply that is left.
pub data Tried : Type 0 where
  passed : Reply → Tried
  taken : Handled → Tried

-- The branches on a test that throws at `none`.
abbrev pub decided : Reply → Option Bool → Handled → Handled → Handled
decided rep none h k = raised rep
decided rep (some test) h k = if test then h else k

-- `status_strings::to_buffer`, with the texts of its namespace
unfoldable pub to_buffer : Status → Bytes
to_buffer ok = codes "HTTP/1.0 200 OK\r\n"
to_buffer created = codes "HTTP/1.0 201 Created\r\n"
to_buffer accepted = codes "HTTP/1.0 202 Accepted\r\n"
to_buffer no_content = codes "HTTP/1.0 204 No Content\r\n"
to_buffer multiple_choices = codes "HTTP/1.0 300 Multiple Choices\r\n"
to_buffer moved_permanently = codes "HTTP/1.0 301 Moved Permanently\r\n"
to_buffer moved_temporarily = codes "HTTP/1.0 302 Moved Temporarily\r\n"
to_buffer not_modified = codes "HTTP/1.0 304 Not Modified\r\n"
to_buffer bad_request = codes "HTTP/1.0 400 Bad Request\r\n"
to_buffer unauthorized = codes "HTTP/1.0 401 Unauthorized\r\n"
to_buffer forbidden = codes "HTTP/1.0 403 Forbidden\r\n"
to_buffer not_found = codes "HTTP/1.0 404 Not Found\r\n"
to_buffer internal_server_error = codes "HTTP/1.0 500 Internal Server Error\r\n"
to_buffer not_implemented = codes "HTTP/1.0 501 Not Implemented\r\n"
to_buffer bad_gateway = codes "HTTP/1.0 502 Bad Gateway\r\n"
to_buffer service_unavailable = codes "HTTP/1.0 503 Service Unavailable\r\n"
to_buffer gateway_timeout = codes "HTTP/1.0 504 Gateway Timeout\r\n"
to_buffer http_version_not_supported = codes "HTTP/1.0 505 HTTP Version Not Supported\r\n"

-- The loop of `to_buffers`: four buffers for a header.
abbrev pub header_buffers : List Header → List Bytes
header_buffers [] = []
header_buffers (h ∷ hs) = h.name ∷ codes ": " ∷ h.value ∷ codes "\r\n" ∷ header_buffers hs

-- `reply::to_buffers`
unfoldable pub to_buffers : Reply → List Bytes
unfolding to_buffer
to_buffers r = to_buffer r.status ∷ (header_buffers r.headers ++ codes "\r\n" ∷ r.content ∷ [])

-- `stock_replies::to_string`, with the texts of its namespace; the last clause is its `default`.
unfoldable pub stock_content : Status → Bytes
stock_content ok = []
stock_content created =
    codes "<html><head><title>Created</title></head><body><h1>201 Created</h1></body></html>"
stock_content accepted =
    codes "<html><head><title>Accepted</title></head><body><h1>202 Accepted</h1></body></html>"
stock_content no_content =
    codes "<html><head><title>No Content</title></head><body><h1>204 Content</h1></body></html>"
stock_content multiple_choices =
    codes
      "<html><head><title>Multiple Choices</title></head><body><h1>300 Multiple Choices</h1></body></html>"
stock_content moved_permanently =
    codes
      "<html><head><title>Moved Permanently</title></head><body><h1>301 Moved Permanently</h1></body></html>"
stock_content moved_temporarily =
    codes
      "<html><head><title>Moved Temporarily</title></head><body><h1>302 Moved Temporarily</h1></body></html>"
stock_content not_modified =
    codes
      "<html><head><title>Not Modified</title></head><body><h1>304 Not Modified</h1></body></html>"
stock_content bad_request =
    codes
      "<html><head><title>Bad Request</title></head><body><h1>400 Bad Request</h1></body></html>"
stock_content unauthorized =
    codes
      "<html><head><title>Unauthorized</title></head><body><h1>401 Unauthorized</h1></body></html>"
stock_content forbidden =
    codes "<html><head><title>Forbidden</title></head><body><h1>403 Forbidden</h1></body></html>"
stock_content not_found =
    codes "<html><head><title>Not Found</title></head><body><h1>404 Not Found</h1></body></html>"
stock_content not_implemented =
    codes
      "<html><head><title>Not Implemented</title></head><body><h1>501 Not Implemented</h1></body></html>"
stock_content bad_gateway =
    codes
      "<html><head><title>Bad Gateway</title></head><body><h1>502 Bad Gateway</h1></body></html>"
stock_content service_unavailable =
    codes
      "<html><head><title>Service Unavailable</title></head><body><h1>503 Service Unavailable</h1></body></html>"
stock_content _ =
    codes
      "<html><head><title>Internal Server Error</title></head><body><h1>500 Internal Server Error</h1></body></html>"

-- The header list that every part of the program writes: a length and a type.
abbrev pub framing : Bytes → Bytes → List Header
framing content type =
    (record { name = codes "Content-Length"; value = to_string (length content) })
    ∷ (record { name = codes "Content-Type"; value = type })
    ∷ []

-- `reply::stock_reply`
unfoldable pub stock_reply : Status → Reply
stock_reply s = record {
  status = s;
  headers = framing (stock_content s) (codes "text/html");
  content = stock_content s;
}

abbrev pub status_map : List (Bytes × Status)
status_map =
    (codes "ok", ok)
    ∷ (codes "created", created)
    ∷ (codes "accepted", accepted)
    ∷ (codes "no_content", no_content)
    ∷ (codes "multiple_choices", multiple_choices)
    ∷ (codes "moved_permanently", moved_permanently)
    ∷ (codes "moved_temporarily", moved_temporarily)
    ∷ (codes "not_modified", not_modified)
    ∷ (codes "bad_request", bad_request)
    ∷ (codes "unauthorized", unauthorized)
    ∷ (codes "forbidden", forbidden)
    ∷ (codes "not_found", not_found)
    ∷ (codes "internal_server_error", internal_server_error)
    ∷ (codes "not_implemented", not_implemented)
    ∷ (codes "bad_gateway", bad_gateway)
    ∷ (codes "service_unavailable", service_unavailable)
    ∷ (codes "gateway_timeout", gateway_timeout)
    ∷ (codes "http_version_not_supported", http_version_not_supported)
    ∷ []

-- `reply::status_from_string`; `none` is the exception `std::invalid_argument`.
unfoldable pub status_from_string : Bytes → Option Status
unfolding lookup equal
status_from_string s = lookup s status_map

-- ===== src/Router.antt =====
-- lib/path_router.hpp and lib/path_router.cpp.
pub mod Sorted
pub mod Dispatch
pub mod Each
pub mod Order
pub mod Replies
pub mod EndToEnd
use f.Prelude.{
  ℕ, Bool, true, false, not, ◌&&◌, ◌||◌, Option, none, some, List, [], ◌∷◌, ◌++◌, ◌==◌,
  if◌then◌else◌, length,
}
use f.Bytes.{Bytes, codes, equal, has_dotdot}
use f.Http.{HttpRequest}
use f.Map.{lookup, insert}
use f.FileSystem.{FileSystem}
use f.Reply.{Handled, replied, Tried, passed, taken, Reply, bad_request, not_found, stock_reply}
use f.Static
use f.Static.{StaticContent}
use f.Dynamic
use f.Dynamic.{DynamicContent}
use f.Url.{url_decode}

-- `std::variant<static_content, dynamic_content>`
pub data Resource : Type 0 where
  static : StaticContent → Resource
  dynamic : DynamicContent → Resource

-- `resource.method()`
abbrev pub method_of : Resource → Bytes
method_of (static s) = Static.method
method_of (dynamic d) = d.action

-- `struct resource_entry`
pub record ResourceEntry : Type 0 where
  pub location : Bytes
  pub handler : Resource

-- The `std::visit` of `resource_entry::serve_if_match`.
unfoldable pub serve_resource : FileSystem → Resource → Bytes → Bytes → HttpRequest → Reply → Tried
serve_resource fs (static s) location resource_path req rep =
    Static.serve_if_match fs s location resource_path req rep
serve_resource fs (dynamic d) location resource_path req rep =
    Dynamic.serve_if_match d location resource_path req rep

unfoldable pub serve_if_match : FileSystem → ResourceEntry → Bytes → HttpRequest → Reply → Tried
unfolding serve_resource
serve_if_match fs e resource_path req rep =
    serve_resource fs e.handler e.location resource_path req rep

-- `class path_router`: method -> list of entries
abbrev pub PathRouter : Type 0
PathRouter = List (Bytes × List ResourceEntry)

-- `resources[method]`, which is empty at first.
abbrev pub handlers_of : Option (List ResourceEntry) → List ResourceEntry
handlers_of none = []
handlers_of (some handlers) = handlers

-- `path_router::add`. `sort` is what `std::sort` does to the entries for the comparison that the
-- source gives it; the standard leaves the order of entries of one length open.
unfoldable pub add :
    (List ResourceEntry → List ResourceEntry) → Bytes → Resource → PathRouter → PathRouter
add sort location resource resources =
    let method = method_of resource in
    let handlers = handlers_of (lookup method resources) in
    insert method (sort (handlers ++ (record { location = location; handler = resource }) ∷ []))
      resources

-- The loop over the handlers of the method, and the reply behind it.
unfoldable pub serve_first : FileSystem → List ResourceEntry → Bytes → HttpRequest → Reply → Handled
serve_first fs [] request_path req rep = replied (stock_reply not_found)
serve_first fs (e ∷ es) request_path req rep = elim (serve_if_match fs e request_path req rep) [
  | taken h ↦ h
  | passed rep' ↦ serve_first fs es request_path req rep'
]

-- `if (it == resources.end())`, and the loop.
unfoldable pub serve_found :
    FileSystem → Option (List ResourceEntry) → Bytes → HttpRequest → Reply → Handled
serve_found fs none request_path req rep = replied (stock_reply not_found)
serve_found fs (some handlers) request_path req rep = serve_first fs handlers request_path req rep

-- `request_path.empty() || request_path[0] != '/' || request_path.find("..") != npos`
unfoldable pub is_refused : Bytes → Bool
is_refused [] = true
is_refused (c ∷ s) = not (c == b'/') || has_dotdot (c ∷ s)

-- `if (method == "HEAD") method = "GET"`
abbrev pub lookup_method : Bytes → Bytes
lookup_method m = if equal m (codes "HEAD") then codes "GET" else m

-- The part of `operator()` behind the decoding.
unfoldable pub route_path : FileSystem → PathRouter → Bytes → HttpRequest → Reply → Handled
route_path fs resources request_path req rep =
    if is_refused request_path
    then replied (stock_reply bad_request)
    else serve_found fs (lookup (lookup_method req.method) resources) request_path req rep

-- `path_router::operator()`
unfoldable pub route : FileSystem → PathRouter → HttpRequest → Reply → Handled
route fs resources req rep =
    let (decoded, request_path) = url_decode req.uri in
    if decoded
    then route_path fs resources request_path req rep
    else replied (stock_reply bad_request)

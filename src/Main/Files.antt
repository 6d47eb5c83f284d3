-- ===== src/Main/Files.antt =====
-- A server that the subcommand `serve` starts, from the bytes of a request to those of a file.
use f.Prelude.{ℕ, ◌+◌, ◌≡◌, ◌≤◌, ◌∙◌, ap, subst, inr, true, false, some, List, [], ◌∷◌, flatten}
use f.Bytes.{Bytes, codes, equal, starts_with}
use f.Bytes.Decimal.{to_string}
use f.Connection.{Connection, plain, idle, writing, blank_reply, written, deliver}
use f.Connection.Stream.{reading_connection, deliver-handled}
use f.FileSystem.{FileSystem, regular, barred, relative_path, join}
use f.Http.{HttpRequest}
use f.Json.{ok, bind_ok, ok_injective, JsonApi}
use f.Listen.{AsioApi, listen}
use f.Main.{Instance, simple_router, build_simple_server, handler_of}
use f.Parser
use f.Parser.{expecting_newline_3, int_max}
use f.Parser.RoundTrip.{IsRequest, render}
use f.Reply.{Handled, replied, taken, Reply, Status, to_buffers}
use f.Router.{
  ResourceEntry, static, is_refused, lookup_method, route, serve_if_match, serve_resource,
}
use f.Router.Dispatch.{Serves, IsLongest-only}
use f.Router.Each.{add_each, add_each-IsLongest}
use f.Router.Sorted.{IsSort, entry}
use f.Static
use f.Static.{serve_path, cleared}
use f.Static.Replies.{cleared-not_head}
use f.Static.Files.{file_reply, serve_path-file, serve_path-barred}
use f.Url.{url_decode}

-- The file that a path asks for.
abbrev pub file_path : Bytes → Bytes → Bytes
file_path root_doc p = join root_doc (relative_path p)

-- A connection that has read this request.
abbrev pub served : Status → HttpRequest → Connection
served st req = record (reading_connection st plain) { parser = expecting_newline_3; request = req }

-- The one entry of the router serves every absolute path, by what stands at its file.
simple_entry-Serves :
    (fs : FileSystem) (root_doc p : Bytes) (req : HttpRequest) (st : Status) {outcome : Handled}
    → serve_path fs (file_path root_doc p) req (blank_reply st) ≡ outcome
    → Serves fs
        (b'/' ∷ p)
        req
        (blank_reply st)
        (cleared req outcome)
        (entry (codes "/") (static (record { doc_root = root_doc })))
unfolding serve_if_match serve_resource Static.serve_if_match starts_with
simple_entry-Serves fs root_doc p req st served = ap (λ h. taken (cleared req h)) served

pub simple_router-route :
    (fs : FileSystem) {sort : List ResourceEntry → List ResourceEntry} (root_doc p : Bytes)
    (req : HttpRequest) (st : Status) {outcome : Handled}
    → IsSort sort
    → lookup_method req.method ≡ codes "GET"
    → url_decode req.uri ≡ (true, b'/' ∷ p)
    → is_refused (b'/' ∷ p) ≡ false
    → serve_path fs (file_path root_doc p) req (blank_reply st) ≡ outcome
    → route fs (simple_router sort root_doc) req (blank_reply st) ≡ cleared req outcome
unfolding simple_router add_each equal
simple_router-route fs {sort} root_doc p req st {outcome} valid method decodes allowed serves =
    IsLongest-only fs (b'/' ∷ p) req (blank_reply st) (cleared req outcome) _
      (inr (simple_entry-Serves fs root_doc p req st serves), tt)
      (λ a. cc (a.0, simple_entry-Serves fs root_doc p req st serves))
      (add_each-IsLongest fs ((codes "/", static (record { doc_root = root_doc })) ∷ [])
        {method = codes "GET"} req (blank_reply st) valid decodes allowed method)

-- What a server that `serve` has built makes of a request.
simple_server-deliver :
    (json : JsonApi) (asio : AsioApi) {sort : List ResourceEntry → List ResourceEntry}
    (fs : FileSystem) (root_doc bind_address : Bytes) (port : ℕ) (w : asio.World)
    {server : Instance (json.Json)} {w' : asio.World} (st : Status) (req : HttpRequest)
    (p rest : Bytes) (chunks : List Bytes) {outcome : Handled}
    → IsSort sort
    → build_simple_server json asio sort root_doc bind_address port w ≡ ok (server, w')
    → IsRequest req
    → req.http_version_major + b'0' ≤ int_max
    → req.http_version_minor + b'0' ≤ int_max
    → flatten chunks ≡ render req rest
    → lookup_method req.method ≡ codes "GET"
    → url_decode req.uri ≡ (true, b'/' ∷ p)
    → is_refused (b'/' ∷ p) ≡ false
    → serve_path fs (file_path root_doc p) req (blank_reply st) ≡ outcome
    → deliver (handler_of json fs server.source) chunks (reading_connection st plain)
      ≡ Parser.ok (written (cleared req outcome) (served st req)).0
unfolding build_simple_server handler_of
simple_server-deliver json asio {sort} fs root_doc bind_address port w st req p rest chunks
      {outcome} valid built h major minor e method decodes allowed serves =
    let (w₁, _, k) = bind_ok (listen asio (to_string port) bind_address w) _ built in
    let source = ap (λ x. x.0.source) (ok_injective k) in
    subst
      (λ src.
        deliver (handler_of json fs src) chunks (reading_connection st plain)
        ≡ Parser.ok (written (cleared req outcome) (served st req)).0)
      source
      (deliver-handled (route fs (simple_router sort root_doc)) st plain req rest chunks h major
        minor e (simple_router-route fs root_doc p req st valid method decodes allowed serves))

-- A connection that has read this request, and sends this reply.
abbrev pub answering : Status → HttpRequest → Reply → Connection
answering st req r = record (served st req) {
  pending = writing;
  reply = r;
  outgoing = to_buffers r;
}

-- A server that the subcommand `serve` starts gives out the files below its root. Whoever sends a
-- GET of the grammar, in any pieces with any bytes behind it and with version digits that fit into
-- an int, for a path that is absolute and has no `..`, is answered by the whole content of the
-- regular file that stands there, with its length and type.
pub build_simple_server-deliver :
    (json : JsonApi) (asio : AsioApi) {sort : List ResourceEntry → List ResourceEntry}
    (fs : FileSystem) (root_doc bind_address : Bytes) (port : ℕ) (w : asio.World)
    {server : Instance (json.Json)} {w' : asio.World} (st : Status) (req : HttpRequest)
    (p file rest : Bytes) (chunks : List Bytes)
    → IsSort sort
    → build_simple_server json asio sort root_doc bind_address port w ≡ ok (server, w')
    → IsRequest req
    → req.http_version_major + b'0' ≤ int_max
    → req.http_version_minor + b'0' ≤ int_max
    → flatten chunks ≡ render req rest
    → req.method ≡ codes "GET"
    → url_decode req.uri ≡ (true, b'/' ∷ p)
    → is_refused (b'/' ∷ p) ≡ false
    → fs (file_path root_doc p) ≡ some (regular (some file))
    → deliver (handler_of json fs server.source) chunks (reading_connection st plain)
      ≡ Parser.ok (answering st req (file_reply (file_path root_doc p) file))
unfolding equal
build_simple_server-deliver json asio fs root_doc bind_address port w st req p file rest chunks
      valid built h major minor e method decodes allowed there =
    let not_head : equal req.method (codes "HEAD") ≡ false =
      ap (λ m. equal m (codes "HEAD")) method in
    simple_server-deliver json asio fs root_doc bind_address port w st req p rest chunks valid built
      h major minor e (ap lookup_method method) decodes allowed
      (serve_path-file fs (file_path root_doc p) file req st there)
    ∙ ap (λ m. Parser.ok (written m (served st req)).0)
        (cleared-not_head req (replied (file_reply (file_path root_doc p) file)) not_head)

-- A server that the subcommand `serve` starts leaves some clients without an answer. Whoever sends
-- a GET or HEAD of the grammar, in any pieces with any bytes behind it and with version digits that
-- fit into an int, for a path that is absolute and has no `..`, and whose status below the root the
-- system refuses to tell, ends up with a connection that is open, with nothing written and nothing
-- pending.
pub build_simple_server-barred :
    (json : JsonApi) (asio : AsioApi) {sort : List ResourceEntry → List ResourceEntry}
    (fs : FileSystem) (root_doc bind_address : Bytes) (port : ℕ) (w : asio.World)
    {server : Instance (json.Json)} {w' : asio.World} (st : Status) (req : HttpRequest)
    (p rest : Bytes) (chunks : List Bytes)
    → IsSort sort
    → build_simple_server json asio sort root_doc bind_address port w ≡ ok (server, w')
    → IsRequest req
    → req.http_version_major + b'0' ≤ int_max
    → req.http_version_minor + b'0' ≤ int_max
    → flatten chunks ≡ render req rest
    → lookup_method req.method ≡ codes "GET"
    → url_decode req.uri ≡ (true, b'/' ∷ p)
    → is_refused (b'/' ∷ p) ≡ false
    → fs (file_path root_doc p) ≡ some barred
    → deliver (handler_of json fs server.source) chunks (reading_connection st plain)
      ≡ Parser.ok (record (served st req) { pending = idle; outgoing = [] })
build_simple_server-barred json asio fs root_doc bind_address port w st req p rest chunks valid
      built h major minor e method decodes allowed there =
    simple_server-deliver json asio fs root_doc bind_address port w st req p rest chunks valid built
      h major minor e method decodes allowed
      (serve_path-barred fs (file_path root_doc p) req (blank_reply st) there)

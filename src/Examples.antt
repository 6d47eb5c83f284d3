-- ===== src/Examples.antt =====
-- src/examples: the routers and handlers of the four programs, what they start, and their loops.
pub mod Hello
pub mod Redirects
pub mod Books
pub mod Programs
pub mod Https
use f.Prelude.{ℕ, Option, none, some, List, [], ◌∷◌, ◌++◌}
use f.Json.{Result, ok, throw, ◌>>=◌}
use f.Listen.{AsioApi, listen, call_contexts}
use f.Main.{Exit, returned, run_loop}
use f.Tls.{SslSettings, default_settings, context_calls}
use f.Bytes.{Bytes, codes, before}
use f.Http.{HttpRequest, get_header}
use f.Reply.{Reply, replied, stock_reply}
use f.Reply
use f.Request.{resource, query}
use f.Dynamic.{written, Handler, json, write, get, put}
use f.Dynamic
use f.Router.{Resource, ResourceEntry, PathRouter, static, dynamic, add, route}
use f.FileSystem.{FileSystem}
use f.Connection.{RequestHandler}
use f.Router.Each.{add_each}

-- The handlers, which pass over the stream's console output of `put`.
abbrev version_handler : Handler
version_handler req os = written (write (codes "1.0.0\n") os)

abbrev version_j_handler : Handler
version_j_handler req os = written (write (codes "{\"version\":\"1.0.0\"}") (json os))

abbrev bad_handler : Handler
bad_handler req os = written (Dynamic.bad_request os)

abbrev hello_handler : Handler
hello_handler req os = written (write (codes "Hello, world!\n") os)

unfoldable pub hello_name_handler : Handler
unfolding resource
hello_name_handler req os =
    written (write (codes "!\n") (write (resource req (codes "name")) (write (codes "Hello, ") os)))

unfoldable pub print_handler : Handler
unfolding query
print_handler req os = written (
    write (codes "!\n") (
      write (query req (codes "country"))
        (write (codes " from ") (write (query req (codes "name")) (write (codes "Hi, ") os)))))

unfoldable pub greet_handler : Handler
unfolding resource
greet_handler req os = written (
    write (codes "!\n") (
      write (resource req (codes "country"))
        (write (codes " from ") (write (resource req (codes "name")) (write (codes "Hi, ") os)))))

abbrev person_handler : Handler
person_handler req os = written (write (codes "ok") os)

-- What is added to the router, in order.
abbrev pub rest_resources : List (Bytes × Resource)
rest_resources =
    (codes "/version", dynamic (get version_handler))
    ∷ (codes "/version_j", dynamic (get version_j_handler))
    ∷ (codes "/bad", dynamic (get bad_handler))
    ∷ (codes "/hello", dynamic (get hello_handler))
    ∷ (codes "/hello/:name", dynamic (get hello_name_handler))
    ∷ (codes "/print", dynamic (get print_handler))
    ∷ (codes "/greet/:name/:country", dynamic (get greet_handler))
    ∷ (codes "/person/:name/:country", dynamic (put person_handler))
    ∷ []

unfoldable pub rest_router : (List ResourceEntry → List ResourceEntry) → PathRouter
unfolding add_each
rest_router sort = add_each sort rest_resources []

-- The header line that is added for a host.
abbrev pub https_location : Bytes → HttpRequest → Bytes
https_location host req = codes "https://" ++ (before b':' host ++ (codes ":7000" ++ req.uri))

abbrev pub moved_to : Bytes → Reply
moved_to location =
    let res = stock_reply Reply.moved_permanently in
    record res {
      headers = res.headers ++ (record { name = codes "Location"; value = location }) ∷ [];
    }

abbrev pub redirect_host : Bytes → HttpRequest → Reply
redirect_host [] req = stock_reply Reply.bad_request
redirect_host (c ∷ host) req = moved_to (https_location (c ∷ host) req)

-- The handler of the server without TLS.
unfoldable pub https_redirect : RequestHandler
https_redirect req res = replied (redirect_host (get_header req (codes "host")) req)

-- complete.cpp: a directory, and a handler for one path.
abbrev pub books_handler : Handler
books_handler req os = written (write (codes "Hello, get api!\n") os)

abbrev pub complete_resources : List (Bytes × Resource)
complete_resources =
    (codes "/", static (record { doc_root = codes "." }))
    ∷ (codes "/books", dynamic (get books_handler))
    ∷ []

unfoldable pub complete_router : (List ResourceEntry → List ResourceEntry) → PathRouter
unfolding add_each
complete_router sort = add_each sort complete_resources []

-- The settings of https_static.cpp.
abbrev pub https_settings : SslSettings
https_settings = record default_settings {
  certificate = codes "cert.pem";
  certificate_key = codes "key.pem";
  dhparam = codes "dh4096.pem";
}

-- A server that listens.
pub record Instance : Type 0 where
  pub settings : Option SslSettings
  pub handler : RequestHandler
  pub port : Bytes
  pub address : Bytes

abbrev pub plain_server : RequestHandler → Bytes → Bytes → Instance
plain_server handler port address = record {
  settings = none;
  handler = handler;
  port = port;
  address = address;
}

abbrev pub tls_server : RequestHandler → Bytes → Bytes → Instance
tls_server handler port address = record {
  settings = some https_settings;
  handler = handler;
  port = port;
  address = address;
}

abbrev pub directory : (List ResourceEntry → List ResourceEntry) → Bytes → PathRouter
directory sort root_doc = add sort (codes "/") (static (record { doc_root = root_doc })) []

module _ (asio : AsioApi) (fs : FileSystem) (sort : List ResourceEntry → List ResourceEntry) where
  open asio use {World}

  -- The servers that each program makes, up to its loop.
  unfoldable pub start_rest : World → Result (List Instance × World)
  start_rest w = do
    w' ← listen asio (codes "7000") (codes "0.0.0.0") w
    ok (plain_server (route fs (rest_router sort)) (codes "7000") (codes "0.0.0.0") ∷ [], w')

  unfoldable pub start_complete : World → Result (List Instance × World)
  start_complete w = do
    w' ← listen asio (codes "7000") (codes "localhost") w
    ok (plain_server (route fs (complete_router sort)) (codes "7000") (codes "localhost") ∷ [], w')

  unfoldable pub start_static : World → Result (List Instance × World)
  start_static w = do
    w₁ ← listen asio (codes "7000") (codes "0.0.0.0") w
    w₂ ← listen asio (codes "7001") (codes "0.0.0.0") w₁
    ok (
      plain_server (route fs (directory sort (codes "."))) (codes "7000") (codes "0.0.0.0")
          ∷ plain_server (route fs (directory sort (codes ".."))) (codes "7001") (codes "0.0.0.0")
          ∷ [],
      w₂,
    )

  unfoldable pub start_https_static : World → Result (List Instance × World)
  start_https_static w = do
    w₁ ← call_contexts asio (context_calls https_settings) w
    w₂ ← listen asio (codes "7000") (codes "0.0.0.0") w₁
    w₃ ← listen asio (codes "8002") (codes "0.0.0.0") w₂
    ok (
      tls_server (route fs (directory sort (codes "."))) (codes "7000") (codes "0.0.0.0")
          ∷ plain_server https_redirect (codes "8002") (codes "0.0.0.0")
          ∷ [],
      w₃,
    )

  module _ (run : List Instance → World → Exit × World) (fuel : ℕ) where
    -- The loop behind the start, and the handler of an exception. `none` means that the fuel ran
    -- out.
    unfoldable pub run_started : Result (List Instance × World) → Option ℕ
    run_started (throw f) = some 1
    run_started (ok (servers, w)) = returned (run_loop (run servers) fuel 0 w)

    -- The exit code of each program.
    unfoldable pub rest_main : World → Option ℕ
    rest_main w = run_started (start_rest w)

    unfoldable pub complete_main : World → Option ℕ
    complete_main w = run_started (start_complete w)

    unfoldable pub static_main : World → Option ℕ
    static_main w = run_started (start_static w)

    unfoldable pub https_static_main : World → Option ℕ
    https_static_main w = run_started (start_https_static w)

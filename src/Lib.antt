-- ===== src/Lib.antt =====
-- The f16 web server and library: a model of the code under src/lib, of what src/server builds from
-- it, and of the examples and the fuzz targets.
--
-- A server accepts connections and gives each one to its connection manager. A connection reads
-- bytes and hands them to the request parser until this has a request or refuses it; a request goes
-- to the handler that was set, as a rule a path router. The router decodes the URI and asks the
-- resources of the request's method, longer locations first, each of which serves the path or
-- refuses it. A static content serves files below a root, a dynamic content calls a function of the
-- library's user. The reply is written, and the connection is closed.
--
-- main builds one server for each entry of its configuration, with or without TLS, sets its handler
-- from the entry, and runs them all until a run ends without an exception. Handlers may throw: that
-- of an entry with `return`, which reads its headers at each request, a static content, at a path
-- whose status the system refuses to tell, and a function of the library's user. What they throw
-- leaves the completion handler of the read, and with it the run.
--
-- Where the code is modelled:
--
--   src/lib/header.hpp, http_request.hpp            Http
--   src/lib/request_parser.hpp, request_parser.cpp  Parser: State, consume, parse; Parser.Chars
--   src/lib/url.cpp                                 Url: url_decode
--   src/lib/string.hpp                              Text: split_string, match_pattern
--   src/lib/mime_types.cpp                          Mime: extension_to_type
--   src/lib/reply.hpp, reply.cpp                    Reply: Status, to_buffers, stock_reply
--   src/lib/request.hpp                             Request
--   src/lib/dynamic_content.hpp, .cpp               Dynamic: serve_if_match
--   src/lib/static_content.hpp, .cpp                Static: serve_if_match
--   src/lib/path_router.hpp, path_router.cpp        Router: add, route (operator())
--   src/lib/base_connection.hpp, plain_connection.cpp, ssl_connection.cpp, request_handler.cpp
--                                                   Connection: on_read, on_write, on_handshake
--   src/lib/http_server.cpp, connection_manager.cpp Server: on_accept, manager_start, settle;
--                                                   Listen: listen
--   src/lib/https_server.hpp, https_server.cpp      Tls: SslSettings, context_calls
--   src/server/main.cpp, the command line           Command: app, command_of
--   src/server/main.cpp, the handler of `return`    Redirect: json_handler, return_handler
--   src/server/main.cpp, what it reads of its JSON  Config: read_ssl, source_of
--   src/server/main.cpp, the servers and their loop Main: build_servers, handler_of, main
--   src/examples/rest.cpp, complete.cpp, static.cpp, https_static.cpp
--                                                   Examples: rest_router, start_complete, static_main
--   fuzz_test                                       Fuzz: fuzz_router
--
-- Prelude and Bytes hold the shared notation and std::string, Map std::unordered_map. FileSystem
-- holds what the static contents read of std::filesystem: a file system is a parameter, a function
-- from paths to what stands there, links followed; std::filesystem throws where a path has no status
-- (FileSystem.barred). Json holds what is used of nlohmann::json, with what it throws.
-- Tests runs the theorems at concrete inputs, and the cases of test/tests.cpp.
--
-- State is passed explicitly: the parser takes its state and the request and gives them back, a
-- completion handler of Asio takes a connection and gives it back with what it asks of the
-- connection manager, and Server.Step is the relation of one completion to the next server. A request
-- handler gives the reply that it leaves, and whether it has returned or thrown (Reply.Handled).
-- Server.Spec is what a server promises, without reads in pieces, buffers and manager: a view has a
-- phase for each client, by all that it has sent, and Server.Refines leads from the steps of the
-- server to those of the view.
-- A char is a number from 0 to 255. The parser's int is bounded by Parser.int_max: a digit that
-- leads beyond it is the fault int_overflow, and headers.back() of no header is back_of_empty.
-- The functions of main.cpp that throw give a Result, and TLS and the acceptor are the lists of the
-- calls that are made of them.
-- Loops that are not structural run on fuel: Text.match_from on the length of the pattern, of which
-- each round takes a part; Static.read_loop on one round more than the file has bytes, since each
-- round takes at least one; Main.run_loop on a number of runs, which is enough where it is above the
-- number of those that throw.
--
-- Parameters of the model: the file system; what std::sort does (Router.Sorted.IsSort states what
-- the standard says of it, and insertion_sort meets it); the handlers of dynamic contents, which
-- write their stream or throw; the parse of CLI11 (Command.Cli; Command.Checked.IsChecking states
-- what it documents of `required` and `check`); nlohmann::json (Json.JsonApi); Asio and OpenSSL, by
-- the events of Server.Step and by the calls of Listen.AsioApi. The protocols of the settings are
-- kept in the order of their insertion, where std::unordered_set has some order.
--
-- Not modelled: the help texts of the options, and the messages by spdlog, fmt and the streams of
-- the console; the lifetime of a connection, which Asio keeps while an operation of it is pending;
-- completions behind the destructor of the server, other than those of aborted reads and writes,
-- which use their connection alone: the rest may use what is gone (Server.Step.IsDefined).
-- What test/tests.cpp requires of the functions above is checked in Tests.Suite.
pub mod Bytes
pub mod Command
pub mod Config
pub mod Connection
pub mod Dynamic
pub mod Examples
pub mod FileSystem
pub mod Fuzz
pub mod Http
pub mod Json
pub mod Listen
pub mod Main
pub mod Map
pub mod Mime
pub mod Parser
pub mod Prelude
pub mod Redirect
pub mod Reply
pub mod Request
pub mod Router
pub mod Server
pub mod Static
pub mod Tests
pub mod Text
pub mod Tls
pub mod Url

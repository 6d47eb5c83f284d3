-- ===== src/Main.antt =====
-- src/server/main.cpp: the servers that are built, the loop that runs them, and main around these.
pub mod Settings
pub mod Places
pub mod Loop
pub mod Codes
pub mod Files
pub mod Folders
pub mod Unset
use f.Prelude.{
  ℕ, zero, suc, ◌+◌, Bool, true, false, Option, none, some, List, [], ◌∷◌, ◌++◌, if◌then◌else◌,
}
use f.Bytes.{Bytes, codes}
use f.Bytes.Decimal.{to_string}
use f.Command.{Cli, Command, exits, serve, config, help, command_line}
use f.Config.{Source, returns, routes, at_string, settings_of, source_of}
use f.Connection
use f.Connection.{RequestHandler}
use f.FileSystem.{FileSystem}
use f.Json.{Failure, file_not_found, Result, ok, throw, ◌>>=◌, JsonApi}
use f.Listen.{AsioApi, listen, call_contexts}
use f.Router.{ResourceEntry, PathRouter, static, add, route}
use f.Redirect.{json_handler}
use f.Tls.{SslSettings, context_calls}

-- A server that listens: the settings of its TLS, if it has any, and what is given to `set`.
pub record Instance (J : Type 0) : Type 0 where
  pub settings : Option SslSettings
  pub source : Source J
  pub port : Bytes
  pub address : Bytes

-- `make_unique<http_server>` or `make_unique<https_server>`
abbrev pub calls_of : Option SslSettings → List f.Tls.ContextCall
calls_of none = []
calls_of (some settings) = context_calls settings

-- The router of `build_simple_server`.
unfoldable pub simple_router : (List ResourceEntry → List ResourceEntry) → Bytes → PathRouter
simple_router sort root_doc = add sort (codes "/") (static (record { doc_root = root_doc })) []

module _ (json : JsonApi) (asio : AsioApi) (sort : List ResourceEntry → List ResourceEntry) where
  open json use {Json, contains, at, value_string, elements}
  open asio use {World}

  unfoldable pub build_simple_server : Bytes → Bytes → ℕ → World → Result (Instance Json × World)
  build_simple_server root_doc bind_address port w = do
    w' ← listen asio (to_string port) bind_address w
    ok (
      record {
        settings = none;
        source = routes (simple_router sort root_doc);
        port = to_string port;
        address = bind_address;
      },
      w',
    )

  -- One round of the loop over the entries of `servers`.
  unfoldable pub build_server : Json → World → Result (Instance Json × World)
  build_server entry w = do
    address ← at_string json entry (codes "listen_address")
    port ←
        value_string entry (codes "listen_port")
          (if contains entry (codes "ssl") then codes "443" else codes "80")
    settings ← settings_of json entry
    w' ← call_contexts asio (calls_of settings) w
    source ← source_of json sort entry
    w'' ← listen asio port address w'
    ok (record { settings = settings; source = source; port = port; address = address }, w'')

  -- The loop. A server that throws ends it, and the function with it.
  unfoldable pub build_servers : List Json → World → Result (List (Instance Json) × World)
  build_servers [] w = ok ([], w)
  build_servers (entry ∷ entries) w = do
    (server, w') ← build_server entry w
    (servers, w'') ← build_servers entries w'
    ok (server ∷ servers, w'')

  -- `parse_file` is the opening of the file, and the library's parser on it.
  unfoldable pub build_advanced_server :
      (Bytes → Option (Result Json)) → Bytes → World → Result (List (Instance Json) × World)
  build_advanced_server parse_file cfg_file w = elim (parse_file cfg_file) [
    | none ↦ throw file_not_found
    | some parsed ↦ parsed >>= λ jcfg.
        at jcfg (codes "servers") >>= λ servers. build_servers (elements servers) w
  ]

-- What `set` stores: the lambda of a `return`, a router, or nothing, as the constructor leaves it.
unfoldable pub handler_of : (json : JsonApi) → FileSystem → Source (json.Json) → RequestHandler
handler_of json fs (returns status headers) = json_handler json status headers
handler_of json fs (routes router) = route fs router
handler_of json fs Source.unset = Connection.unset

-- How `io_context::run` comes back.
pub data Exit : Type 0 where
  finished threw : Exit

-- The `while (true)` of main: it runs until a run finishes, and counts the exceptions that it
-- reports. `none` means that the fuel ran out.
unfoldable pub run_loop : {W : Type 0} → (W → Exit × W) → ℕ → ℕ → W → Option (ℕ × W)
run_loop run zero reported w = none
run_loop run (suc fuel) reported w =
    let (exit, w') = run w in
    let rest = run_loop run fuel (reported + 1) w' in
    elim exit [ finished ↦ some (reported, w') | threw ↦ rest ]

-- `return 0` behind the loop.
abbrev pub returned : {W : Type 0} → Option (ℕ × W) → Option ℕ
returned none = none
returned (some _) = some 0

module _ (json : JsonApi) (asio : AsioApi) (sort : List ResourceEntry → List ResourceEntry)
    (parse_file : Bytes → Option (Result (json.Json)))
    (add_signals : asio.World → Result (asio.World))
    (run : List (Instance (json.Json)) → asio.World → Exit × asio.World) where
  open json use {Json}
  open asio use {World}

  -- The servers of a subcommand, and the signals.
  unfoldable pub start_servers :
      Result (List (Instance Json) × World) → Result (List (Instance Json) × World)
  start_servers built = do (servers, w) ← built; w' ← add_signals w; ok (servers, w')

  unfoldable pub run_servers : ℕ → Result (List (Instance Json) × World) → Option ℕ
  run_servers fuel (throw f) = some 1
  run_servers fuel (ok (servers, w)) = returned (run_loop (run servers) fuel 0 w)

  -- The branch that the command line leads to.
  unfoldable pub run_command : ℕ → Command → World → Option ℕ
  unfolding start_servers run_servers
  run_command fuel (exits code) w = some code
  run_command fuel help w = some 1
  run_command fuel (serve root_doc bind_address port) w = run_servers fuel (
      start_servers (do
        (server, w') ← build_simple_server json asio sort root_doc bind_address port w
        ok (server ∷ [], w')))
  run_command fuel (config path) w =
      run_servers fuel (start_servers (build_advanced_server json asio sort parse_file path w))

  -- The exit code of `main`. `none` means that the fuel ran out.
  unfoldable pub main : Cli → ℕ → List Bytes → World → Option ℕ
  unfolding run_command command_line
  main cli fuel argv w = run_command fuel (command_line cli argv) w

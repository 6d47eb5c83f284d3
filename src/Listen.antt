-- ===== src/Listen.antt =====
-- lib/http_server.cpp: `listen`. Asio and OpenSSL are a parameter: a type of states, and what each
-- call does to the state, or the exception that it throws.
use f.Prelude.{List, [], ◌∷◌}
use f.Bytes.{Bytes}
use f.Json.{Result, ok, ◌>>=◌}
use f.Tls.{ContextCall}

-- A call of the acceptor.
pub data AcceptorCall (E : Type 0) : Type 0 where
  open_for bind : E → AcceptorCall E
  reuse_address start_listening async_accept : AcceptorCall E

pub record AsioApi : Type 1 where
  pub World : Type 0
  pub Endpoint : Type 0
  -- the first endpoint that the resolver finds for an address and a port
  pub resolve : Bytes → Bytes → World → Result (Endpoint × World)
  pub call_acceptor : AcceptorCall Endpoint → World → Result World
  pub call_context : ContextCall → World → Result World

module _ (asio : AsioApi) where
  open asio use {World, Endpoint, resolve, call_acceptor, call_context}

  unfoldable pub call_all : List (AcceptorCall Endpoint) → World → Result World
  call_all [] w = ok w
  call_all (c ∷ cs) w = call_acceptor c w >>= call_all cs

  abbrev pub listen_calls : Endpoint → List (AcceptorCall Endpoint)
  listen_calls endpoint =
      open_for endpoint ∷ reuse_address ∷ bind endpoint ∷ start_listening ∷ async_accept ∷ []

  -- `http_server::listen`, with the first `do_accept`.
  unfoldable pub listen : Bytes → Bytes → World → Result World
  unfolding call_all
  listen port address w = do
    (endpoint, w') ← resolve address port w
    call_all (listen_calls endpoint) w'

  -- The calls of the constructor of `https_server`.
  unfoldable pub call_contexts : List ContextCall → World → Result World
  call_contexts [] w = ok w
  call_contexts (c ∷ cs) w = call_context c w >>= call_contexts cs

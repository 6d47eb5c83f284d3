-- ===== src/Server/Step.antt =====
-- The completions that Asio may run next, as a relation: it runs one completion handler at a time,
-- each for an operation that is pending. The destructor of the server, `close`, does not wait for
-- them, and takes the connection manager with it. Of the completions behind it only those of an
-- aborted read or write are here, which use the connection alone: others may use what is gone, and
-- have no defined behaviour.
use f.Prelude.{length, ◌≤◌, ℕ, ◌≡◌, ◌<◌, true, false}
use f.Bytes.{Bytes}
use f.Connection.{
  Connection, Kind, RequestHandler, ErrorCode, success, operation_aborted, failure, Verdict,
  handshaking, reading, writing, on_read, on_write, on_handshake,
}
use f.Parser.{ok}
use f.Reply.{Status}
use f.Server.{Server, on_accept, settle, destroy}

-- The size of `buffer_`, which one read can fill.
abbrev pub buffer_size : ℕ
buffer_size = 8192

-- Asio reports `operation_aborted` for an operation of a socket that has been closed.
abbrev pub MayReport : Connection → ErrorCode → Type 0
MayReport c operation_aborted = c.is_open ≡ false
MayReport c _ = Unit

module _ (st : Status) (kind : Kind) (handler : RequestHandler) where
  pub data Step (s : Server) : Server → Type 0 where
    accept : (ec : ErrorCode) → Step s (on_accept st kind ec s)
    handshake :
        (id : ℕ) (ec : ErrorCode)
        → id < s.created
        → (s.store id).pending ≡ handshaking
        → MayReport (s.store id) ec
        → Step s (settle id (on_handshake ec (s.store id)) s)
    read :
        (id : ℕ) (ec : ErrorCode) (bytes : Bytes) {c : Connection} {v : Verdict}
        → length bytes ≤ buffer_size
        → id < s.created
        → (s.store id).pending ≡ reading
        → MayReport (s.store id) ec
        → on_read handler ec bytes (s.store id) ≡ ok (c, v)
        → Step s (settle id (c, v) s)
    write :
        (id : ℕ) (ec : ErrorCode)
        → id < s.created
        → (s.store id).pending ≡ writing
        → MayReport (s.store id) ec
        → Step s (settle id (on_write ec (s.store id)) s)
    close : Step s (destroy s)

  -- The server is there as long as its acceptor is open, which the destructor closes.
  abbrev pub IsAlive : Server → Type 0
  IsAlive s = s.is_accepting ≡ true

  -- A completion that uses the server, or that uses its connection alone.
  abbrev pub IsDefined : {s t : Server} → Step s t → Type 0
  IsDefined {s = s} (accept ec) = IsAlive s
  IsDefined {s = s} (handshake id ec _ _ _) = IsAlive s
  IsDefined (read id operation_aborted bytes _ _ _ _ _) = Unit
  IsDefined {s = s} (read id success bytes _ _ _ _ _) = IsAlive s
  IsDefined {s = s} (read id failure bytes _ _ _ _ _) = IsAlive s
  IsDefined (write id operation_aborted _ _ _) = Unit
  IsDefined {s = s} (write id success _ _ _) = IsAlive s
  IsDefined {s = s} (write id failure _ _ _) = IsAlive s
  IsDefined {s = s} close = IsAlive s

  pub data Reach (s : Server) : Server → Type 0 where
    here : Reach s s
    next : {t u : Server} → Reach s t → (step : Step t u) → IsDefined step → Reach s u

  pub Reach-trans : {s t u : Server} → Reach s t → Reach t u → Reach s u
  Reach-trans r here = r
  Reach-trans r (next q step d) = next (Reach-trans r q) step d

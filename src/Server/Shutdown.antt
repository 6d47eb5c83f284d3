-- ===== src/Server/Shutdown.antt =====
-- What the destructor of `http_server` leaves behind.
use f.Prelude.{ℕ, ◌<◌, ◌≡◌, refl, ap, ◌∙◌, true, false, []}
use f.Connection.{
  Connection, Kind, RequestHandler, ErrorCode, success, operation_aborted, failure, Verdict, keep,
  stop_it, threw,
}
use f.Reply.{Status}
use f.Server.{Server, member, erase, manager_stop, on_accept, destroy, settle, stop_all, new_server}
use f.Server.Invariant.{Reach-Inv}
use f.Server.Step.{Step, accept, handshake, read, write, close, Reach, here, next, Reach-trans}

-- The acceptor is closed, and the manager has no connection.
record IsShut (s : Server) : Type 0 where
  pub refuses : s.is_accepting ≡ false
  pub forgot : s.managed ≡ []

settle-IsShut :
    (id : ℕ) (result : Connection × Verdict) (s : Server) → IsShut s → IsShut (settle id result s)
unfolding settle manager_stop erase
settle-IsShut id (c, keep) s v = record { refuses = v.refuses; forgot = v.forgot }
settle-IsShut id (c, stop_it) s v = record { refuses = v.refuses; forgot = ap (erase id) v.forgot }
settle-IsShut id (c, threw) s v = record { refuses = v.refuses; forgot = v.forgot }

accept-IsShut :
    (st : Status) (kind : Kind) (ec : ErrorCode) (s : Server)
    → IsShut s
    → IsShut (on_accept st kind ec s)
unfolding on_accept
accept-IsShut st kind success s v = simp v.refuses v
accept-IsShut st kind operation_aborted s v = v
accept-IsShut st kind failure s v = v

destroy-IsShut : (s : Server) → IsShut (destroy s)
unfolding destroy stop_all
destroy-IsShut s = record { refuses = refl; forgot = refl }

module _ (st : Status) (kind : Kind) (handler : RequestHandler) where
  Step-IsShut : {s t : Server} → IsShut s → Step st kind handler s t → IsShut t
  Step-IsShut {s = s} v (accept ec) = accept-IsShut st kind ec s v
  Step-IsShut {s = s} v (handshake id ec _ _ _) = settle-IsShut id _ s v
  Step-IsShut {s = s} v (read id ec bytes _ _ _ _ _) = settle-IsShut id _ s v
  Step-IsShut {s = s} v (write id ec _ _ _) = settle-IsShut id _ s v
  Step-IsShut {s = s} v close = destroy-IsShut s

  Reach-IsShut : {s t : Server} → IsShut s → Reach st kind handler s t → IsShut t
  Reach-IsShut v here = v
  Reach-IsShut v (next r step _) = Step-IsShut (Reach-IsShut v r) step

-- The destructor of a server stops everything: whatever completions have run before it, and whatever
-- the handler has thrown, the manager has no connection, and the socket of every connection that was
-- ever made is closed. So it stays behind completions of aborted reads and writes; others, which may
-- use the server that is gone, are not considered.
pub destroy-closed :
    (st : Status) (kind : Kind) (handler : RequestHandler) {s t : Server} (id : ℕ)
    → Reach st kind handler (new_server st kind) s
    → s.is_accepting ≡ true
    → Reach st kind handler (destroy s) t
    → id < t.created
    → (t.managed ≡ []) × ((t.store id).is_open ≡ false)
unfolding member
destroy-closed st kind handler {s = s} id before on behind lt =
    let shut = Reach-IsShut st kind handler (destroy-IsShut s) behind in
    let v = Reach-Inv st kind handler (Reach-trans st kind handler (next before close on) behind) in
    (shut.forgot, v.open_iff_managed id lt ∙ ap (member id) shut.forgot)

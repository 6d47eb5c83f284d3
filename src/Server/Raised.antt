-- ===== src/Server/Raised.antt =====
-- A handler that throws: one that `set` has not been called for, as src/server/main.cpp leaves it for
-- an entry that has neither `return` nor `locations`, or one that meets what it cannot serve.
use f.Prelude.{ℕ, ◌<◌, ◌≡◌, ◌≢◌, refl, sym, ◌∙◌, true, arith, Bool-cases, inl, inr}
use f.Bytes.{Bytes}
use f.Http.{HttpRequest}
use f.Parser.{State, good, ok, parse}
use f.Connection.{
  RequestHandler, Connection, Kind, ErrorCode, success, operation_aborted, failure, Verdict, keep,
  stop_it, threw, idle, after_parse, handle_request, on_read,
}
use f.Reply.{raised}
use f.Reply.{Reply, Status}
use f.Server.{
  Server, update, member, manager_start, manager_stop, create_connection, on_accept, destroy,
  settle, stop_all,
}
use f.Server.Invariant.{member-insert, member-erase}
use f.Server.Step.{Step, accept, handshake, read, write, close, Reach, here, next}

-- The connection is held and open, and nothing is under way on it.
pub record IsStuck (id : ℕ) (s : Server) : Type 0 where
  pub known : id < s.created
  pub held : member id s.managed ≡ true
  pub opened : (s.store id).is_open ≡ true
  pub still : (s.store id).pending ≡ idle

settle-IsStuck :
    (id j : ℕ) (result : Connection × Verdict) (s : Server)
    → j ≢ id
    → IsStuck id s
    → IsStuck id (settle j result s)
unfolding settle manager_stop update
settle-IsStuck id j (c, keep) s ne v = record {
  known = v.known;
  held = v.held;
  opened = ground (arith, v.opened);
  still = ground (arith, v.still);
}
settle-IsStuck id j (c, stop_it) s ne v = record {
  known = v.known;
  held = ground (arith, v.held, member-erase id j s.managed);
  opened = ground (arith, v.opened);
  still = ground (arith, v.still);
}
settle-IsStuck id j (c, threw) s ne v = record {
  known = v.known;
  held = v.held;
  opened = ground (arith, v.opened);
  still = ground (arith, v.still);
}

accept-IsStuck :
    (st : Status) (kind : Kind) (ec : ErrorCode) (id : ℕ) (s : Server)
    → IsStuck id s
    → IsStuck id (on_accept st kind ec s)
unfolding on_accept manager_start create_connection update
accept-IsStuck st kind success id s v = elim (Bool-cases s.is_accepting) [
  | inl on ↦ simp on (record {
    known = ground (arith, v.known);
    held = ground (arith, v.held, member-insert id s.created s.managed);
    opened = ground (arith, v.known, v.opened);
    still = ground (arith, v.known, v.still);
  })
  | inr off ↦ simp off v
]
accept-IsStuck st kind operation_aborted id s v = v
accept-IsStuck st kind failure id s v = v

settle-is_accepting :
    (j : ℕ) (result : Connection × Verdict) (s : Server)
    → (settle j result s).is_accepting ≡ s.is_accepting
unfolding settle manager_stop
settle-is_accepting j (c, keep) s = refl
settle-is_accepting j (c, stop_it) s = refl
settle-is_accepting j (c, threw) s = refl

-- Only `close` ends the accepting.
step-is_accepting :
    (st : Status) (kind : Kind) (handler : RequestHandler) {s t : Server}
    → Step st kind handler s t
    → t.is_accepting ≡ true
    → s.is_accepting ≡ true
unfolding on_accept manager_start create_connection destroy stop_all
step-is_accepting st kind handler (accept success) on = ground (arith, on)
step-is_accepting st kind handler (accept operation_aborted) on = on
step-is_accepting st kind handler (accept failure) on = on
step-is_accepting st kind handler {s = s} (handshake j ec lt p m) on =
    sym (settle-is_accepting j _ s) ∙ on
step-is_accepting st kind handler {s = s} (read j ec bytes _ lt p m e) on =
    sym (settle-is_accepting j _ s) ∙ on
step-is_accepting st kind handler {s = s} (write j ec lt p m) on =
    sym (settle-is_accepting j _ s) ∙ on
step-is_accepting st kind handler close on = cc on

Step-IsStuck :
    (st : Status) (kind : Kind) (handler : RequestHandler) (id : ℕ) {s t : Server}
    → IsStuck id s
    → Step st kind handler s t
    → t.is_accepting ≡ true
    → IsStuck id t
unfolding destroy stop_all
Step-IsStuck st kind handler id {s = s} v (accept ec) on = accept-IsStuck st kind ec id s v
Step-IsStuck st kind handler id {s = s} v (handshake j ec lt p m) on =
    settle-IsStuck id j _ s (λ e. cc (e, v.still, p)) v
Step-IsStuck st kind handler id {s = s} v (read j ec bytes _ lt p m e) on =
    settle-IsStuck id j _ s (λ same. cc (same, v.still, p)) v
Step-IsStuck st kind handler id {s = s} v (write j ec lt p m) on =
    settle-IsStuck id j _ s (λ e. cc (e, v.still, p)) v
Step-IsStuck st kind handler id v close on = cc on

-- While the server accepts, a connection that is stuck stays so, whatever completions Asio runs.
Reach-IsStuck :
    (st : Status) (kind : Kind) (handler : RequestHandler) (id : ℕ) {s t : Server}
    → IsStuck id s
    → Reach st kind handler s t
    → t.is_accepting ≡ true
    → IsStuck id t
Reach-IsStuck st kind handler id v here on = v
Reach-IsStuck st kind handler id v (next r step _) on =
    Step-IsStuck st kind handler id
      (Reach-IsStuck st kind handler id v r (step-is_accepting st kind handler step on)) step on

-- The connection that the exception leaves.
abbrev pub left : State → HttpRequest → Reply → Connection → Connection
left p req r c = record c { parser = p; request = req; pending = idle; reply = r }

-- Where the handler throws on a request, a connection that reads the last of this request is not
-- answered and not stopped: the exception leaves it held, open and with nothing pending, and so it
-- stays behind any further completions while the server accepts.
pub read-IsStuck :
    (st : Status) (kind : Kind) (handler : RequestHandler) (id : ℕ) (bytes rest : Bytes) (p : State)
    (req : HttpRequest) (r : Reply) (s : Server) {t : Server}
    → id < s.created
    → member id s.managed ≡ true
    → (s.store id).is_open ≡ true
    → parse (s.store id).parser (s.store id).request bytes ≡ ok (p, req, good, rest)
    → handler req (s.store id).reply ≡ raised r
    → Reach st kind handler (settle id (left p req r (s.store id), threw) s) t
    → t.is_accepting ≡ true
    → (on_read handler success bytes (s.store id) ≡ ok (left p req r (s.store id), threw))
      × IsStuck id t
unfolding on_read after_parse handle_request settle update
read-IsStuck st kind handler id bytes rest p req r s known held opened e raises reach on = (
  rw (e, raises) refl,
  Reach-IsStuck st kind handler id
      (record { known = known; held = held; opened = ground (arith, opened); still = ground arith })
      reach on,
)

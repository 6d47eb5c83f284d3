-- ===== src/Server/Serves.antt =====
-- That a client is served: completions that lead from its connection to the end of its reply.
use f.Prelude.{
  ℕ, suc, ◌+◌, ◌≤◌, ◌<◌, ◌≡◌, refl, sym, ap, subst, ◌∙◌, true, false, List, flatten, length, All,
  arith, ==_self,
}
use f.Bytes.{Bytes}
use f.Http.{HttpRequest}
use f.Parser.{int_max}
use f.Parser.RoundTrip.{IsRequest, render}
use f.Reply.{replied, Reply, Status, to_buffers}
use f.Connection.{
  RequestHandler, start, Kind, plain, ssl, success, blank_reply, new_connection, on_write,
  on_handshake, deliver,
}
use f.Connection.Stream.{reading_connection, deliver-render}
use f.Server.{
  Server, update, member, manager_start, manager_stop, create_connection, on_accept, settle,
}
use f.Server.Invariant.{member-erase}
use f.Server.Leads.{Leads, deliver-Leads}
use f.Server.Step.{buffer_size, IsAlive, handshake, write, Reach, here, next, Reach-trans}

on_accept-manager_start :
    (st : Status) (kind : Kind) (s : Server)
    → s.is_accepting ≡ true
    → on_accept st kind success s ≡ manager_start s.created (create_connection st kind s)
unfolding on_accept
on_accept-manager_start st kind s on = simp on

started_lem :
    (st : Status) (kind : Kind) (s : Server)
    → let t = manager_start s.created (create_connection st kind s) in
      (t.store s.created ≡ start (new_connection st kind)) × (t.created ≡ suc s.created)
unfolding manager_start create_connection update
started_lem st kind s = (rw ==_self refl, refl)

started_alive :
    (st : Status) (kind : Kind) (s : Server)
    → s.is_accepting ≡ true
    → (manager_start s.created (create_connection st kind s)).is_accepting ≡ true
unfolding manager_start create_connection
started_alive st kind s on = on

-- A connection that has been started gets ready to read: behind its handshake, if it makes one.
ready-Leads :
    (st : Status) (kind : Kind) (handler : RequestHandler) (s : Server) (id : ℕ)
    → IsAlive st kind handler s
    → id < s.created
    → s.store id ≡ start (new_connection st kind)
    → Leads st kind handler s id (reading_connection st kind)
ready-Leads st plain router s id on lt h = record {
  end = s;
  steps = here;
  stored = h;
  created = refl;
  alive = on;
}
ready-Leads st ssl router s id on lt h = record {
  end = settle id (on_handshake success (s.store id)) s;
  steps = next here (handshake id success lt (ap (λ c. c.pending) h) tt) on;
  stored = unfold settle update on_handshake in rw (==_self, h) refl;
  created = unfold settle on_handshake in refl;
  alive = unfold settle on_handshake in on;
}

-- The connection has sent these bytes, its socket has been shut down and closed, and the manager
-- has let go of it.
pub record IsServed (id : ℕ) (outgoing : List Bytes) (s : Server) : Type 0 where
  pub sent : (s.store id).outgoing ≡ outgoing
  pub shut : (s.store id).is_shut_down ≡ true
  pub closed : (s.store id).is_open ≡ false
  pub released : member id s.managed ≡ false

write-IsServed :
    (s : Server) (id : ℕ)
    → IsServed id (s.store id).outgoing (settle id (on_write success (s.store id)) s)
unfolding settle manager_stop update on_write
write-IsServed s id = record {
  sent = rw ==_self refl;
  shut = rw ==_self refl;
  closed = rw ==_self refl;
  released = rw (member-erase id id s.managed, ==_self) refl;
}

-- A connection that has been started, and gets a request of the grammar in pieces that fit into the
-- buffer, can be served to the end.
started-IsServed :
    (st : Status) (kind : Kind) (handler : RequestHandler) (s : Server) (id : ℕ) (r : HttpRequest)
    (rest : Bytes) (chunks : List Bytes) {answer : Reply}
    → IsAlive st kind handler s
    → id < s.created
    → s.store id ≡ start (new_connection st kind)
    → All (λ chunk. length chunk ≤ buffer_size) chunks
    → IsRequest r
    → r.http_version_major + b'0' ≤ int_max
    → r.http_version_minor + b'0' ≤ int_max
    → flatten chunks ≡ render r rest
    → handler r (blank_reply st) ≡ replied answer
    → (t : Server) × Reach st kind handler s t × IsServed id (to_buffers answer) t
started-IsServed st kind handler s id r rest chunks on lt h fits valid major minor e replies =
    let ready = ready-Leads st kind handler s id on lt h in
    let lt' = subst (λ n. id < n) (sym ready.created) lt in
    let answered = deliver-Leads st kind handler chunks ready.end id ready.alive lt' fits (
      ap (deliver handler chunks) ready.stored
      ∙ deliver-render handler st kind r rest chunks valid major minor e replies) in
    let t = answered.end in
    let lt'' = subst (λ n. id < n) (sym answered.created) lt' in
    (
      settle id (on_write success (t.store id)) t,
      next (Reach-trans st kind handler ready.steps answered.steps)
          (write id success lt'' (ap (λ c. c.pending) answered.stored) tt) answered.alive,
      subst (λ out. IsServed id out (settle id (on_write success (t.store id)) t))
          (ap (λ c. c.outgoing) answered.stored) (write-IsServed t id),
    )

-- A server that accepts can serve every client that sends a request of the grammar at which the
-- handler returns, with version digits that fit into an int, in any pieces that fit into the
-- buffer: from any state of it, the accept of the connection, its reads and one write, and the
-- handshake before them for TLS, lead to a state where the connection has sent the handler's reply to
-- that request, its socket has been shut down and closed, and the manager has let go of it.
pub on_accept-IsServed :
    (st : Status) (kind : Kind) (handler : RequestHandler) (s : Server) (r : HttpRequest)
    (rest : Bytes) (chunks : List Bytes) {answer : Reply}
    → s.is_accepting ≡ true
    → All (λ chunk. length chunk ≤ buffer_size) chunks
    → IsRequest r
    → r.http_version_major + b'0' ≤ int_max
    → r.http_version_minor + b'0' ≤ int_max
    → flatten chunks ≡ render r rest
    → handler r (blank_reply st) ≡ replied answer
    → (t : Server) × Reach st kind handler (on_accept st kind success s) t
      × IsServed s.created (to_buffers answer) t
on_accept-IsServed st kind handler s r rest chunks {answer} on fits valid major minor e replies =
    let (stored, created) = started_lem st kind s in
    subst (λ u. (t : Server) × Reach st kind handler u t × IsServed s.created (to_buffers answer) t)
      (sym (on_accept-manager_start st kind s on))
      (started-IsServed st kind handler _ s.created r rest chunks (started_alive st kind s on)
        (subst (λ n. s.created < n) (sym created) (omega arith)) stored fits valid major minor e
        replies)

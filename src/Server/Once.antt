-- ===== src/Server/Once.antt =====
-- One reply for each connection, and what its write borrows.
use f.Prelude.{ℕ, ◌<◌, ◌≡◌, ◌⊎◌, inl, inr, refl, subst, Bool-cases, arith}
use f.Bytes.{Bytes}
use f.Parser.{good, bad, indeterminate, Parsed, ok, ok_injective, fault, ◌>>=◌, parse}
use f.Connection.{
  RequestHandler, written, Connection, Kind, plain, ssl, ErrorCode, success, operation_aborted,
  failure, Verdict, keep, stop_it, threw, idle, handshaking, reading, writing, new_connection,
  start, stop, after_parse, handle_request, on_read, on_write, on_handshake,
}
use f.Reply.{Handled, replied, raised}
use f.Reply.{Reply, Status, to_buffers}
use f.Server.{
  Server, update, member, manager_start, manager_stop, create_connection, on_accept, destroy,
  settle, stop_all, new_server,
}
use f.Server.Invariant.{update-cases, update_self}
use f.Server.Refines.{settle-created}
use f.Server.Step.{Step, accept, handshake, read, write, close, Reach, here, next}

-- A property of connections that survives `stop` and the completion handlers is one of each
-- connection of the store.
module _ (st : Status) (kind : Kind) (handler : RequestHandler) (P : Connection → Type 0)
    (stopped : (c : Connection) → P c → P (stop c)) where
  settle-keeps :
      (id : ℕ) (result : Connection × Verdict) (s : Server) (j : ℕ)
      → (P (s.store id) → P (result.0))
      → P (s.store j)
      → P ((settle id result s).store j)
  unfolding settle manager_stop
  settle-keeps id (c, keep) s j h p =
      update-cases P s.store id c j (λ e. h (subst (λ i. P (s.store i)) e p)) (λ _. p)
  settle-keeps id (c, threw) s j h p =
      update-cases P s.store id c j (λ e. h (subst (λ i. P (s.store i)) e p)) (λ _. p)
  settle-keeps id (c, stop_it) s j h p =
      let stored =
        update-cases P s.store id c j (λ e. h (subst (λ i. P (s.store i)) e p)) (λ _. p) in
      update-cases P _ id _ j (λ e. stopped _ (subst (λ i. P (update s.store id c i)) e stored))
        (λ _. stored)

  accept-keeps :
      (ec : ErrorCode) (s : Server) (j : ℕ)
      → (j ≡ s.created → P (start (new_connection st kind)))
      → P (s.store j)
      → P ((on_accept st kind ec s).store j)
  unfolding on_accept manager_start create_connection
  accept-keeps success s j h p = elim (Bool-cases s.is_accepting) [
    | inl on ↦ simp on (
        update-cases P _ s.created _ j (λ e. rw update_self (h e))
          (λ ne. update-cases P s.store s.created _ j (λ e. absurd (ne e)) (λ _. p)))
    | inr off ↦ simp off p
  ]
  accept-keeps operation_aborted s j h p = p
  accept-keeps failure s j h p = p

  destroy-keeps : (s : Server) (j : ℕ) → P (s.store j) → P ((destroy s).store j)
  unfolding destroy stop_all
  destroy-keeps s j p = elim (Bool-cases (member j s.managed)) [
    | inl held ↦ rw held (stopped (s.store j) p)
    | inr free ↦ rw free p
  ]

  module _
      (shaken : (ec : ErrorCode) (c : Connection)
        → c.pending ≡ handshaking
        → P c
        → P ((on_handshake ec c).0))
      (has_read : (ec : ErrorCode) (bytes : Bytes) (c c' : Connection) (v : Verdict)
        → c.pending ≡ reading
        → on_read handler ec bytes c ≡ ok (c', v)
        → P c
        → P c')
      (has_written : (ec : ErrorCode) (c : Connection)
        → c.pending ≡ writing
        → P c
        → P ((on_write ec c).0)) where
    Step-keeps :
        {s t : Server} (j : ℕ)
        → (j ≡ s.created → P (start (new_connection st kind)))
        → P (s.store j)
        → Step st kind handler s t
        → P (t.store j)
    Step-keeps {s = s} j h p (accept ec) = accept-keeps ec s j h p
    Step-keeps {s = s} j h p (handshake id ec lt w m) =
        settle-keeps id _ s j (shaken ec (s.store id) w) p
    Step-keeps {s = s} j h p (read id ec bytes _ lt w m e) =
        settle-keeps id _ s j (has_read ec bytes (s.store id) _ _ w e) p
    Step-keeps {s = s} j h p (write id ec lt w m) =
        settle-keeps id _ s j (has_written ec (s.store id) w) p
    Step-keeps {s = s} j h p close = destroy-keeps s j p

-- The write that is under way has the buffers of the connection's reply.
abbrev Borrows : Connection → Type 0
Borrows c = c.pending ≡ writing → c.outgoing ≡ to_buffers c.reply

-- The write of this reply is under way or done.
abbrev Sends : Reply → Connection → Type 0
Sends r c =
    ((c.pending ≡ writing) ⊎ (c.pending ≡ idle)) × (c.reply ≡ r) × (c.outgoing ≡ to_buffers r)

module _ (st : Status) (kind : Kind) (handler : RequestHandler) where
  written-Borrows : (h : Handled) (c : Connection) → Borrows ((written h c).0)
  written-Borrows (replied r) c e = refl
  written-Borrows (raised r) c e = cc e

  read-Borrows :
      (ec : ErrorCode) (bytes : Bytes) (c c' : Connection) (v : Verdict)
      → c.pending ≡ reading
      → on_read handler ec bytes c ≡ ok (c', v)
      → Borrows c
      → Borrows c'
  unfolding on_read after_parse handle_request
  read-Borrows success bytes c c' v w e b = cases (parse c.parser c.request bytes) e
    where
      cases :
          (m : Parsed)
          → ◌≡◌
              (m >>= λ (s, req, result, rest).
                ok (after_parse handler result (record c { parser = s; request = req })))
              (ok (c', v))
          → Borrows c'
      cases (fault f) e = cc e
      cases (ok (s, req, good, rest)) e =
          subst (λ x. Borrows (x.0)) (ok_injective e) (written-Borrows (handler req c.reply) _)
      cases (ok (s, req, bad, rest)) e = subst (λ x. Borrows (x.0)) (ok_injective e) (λ _. refl)
      cases (ok (s, req, indeterminate, rest)) e =
          subst (λ x. Borrows (x.0)) (ok_injective e) (λ h. cc h)
  read-Borrows operation_aborted bytes c c' v w e b =
      subst (λ x. Borrows (x.0)) (ok_injective e) (λ h. cc h)
  read-Borrows failure bytes c c' v w e b = subst (λ x. Borrows (x.0)) (ok_injective e) (λ h. cc h)

  handshake-Borrows :
      (ec : ErrorCode) (c : Connection)
      → c.pending ≡ handshaking
      → Borrows c
      → Borrows ((on_handshake ec c).0)
  unfolding on_handshake
  handshake-Borrows success c w b e = cc e
  handshake-Borrows operation_aborted c w b e = cc e
  handshake-Borrows failure c w b e = cc e

  write-Borrows :
      (ec : ErrorCode) (c : Connection)
      → c.pending ≡ writing
      → Borrows c
      → Borrows ((on_write ec c).0)
  unfolding on_write
  write-Borrows success c w b e = cc e
  write-Borrows operation_aborted c w b e = cc e
  write-Borrows failure c w b e = cc e

  started-Borrows : (k : Kind) → Borrows (start (new_connection st k))
  started-Borrows plain e = cc e
  started-Borrows ssl e = cc e

  Reach-Borrows :
      {s : Server} (j : ℕ) → Reach st kind handler (new_server st kind) s → Borrows (s.store j)
  Reach-Borrows j here = λ e. cc e
  Reach-Borrows j (next r step _) =
      Step-keeps st kind handler Borrows (λ c b. b) handshake-Borrows read-Borrows write-Borrows j
        (λ _. started-Borrows kind) (Reach-Borrows j r) step

  handshake-Sends :
      (r : Reply) (ec : ErrorCode) (c : Connection)
      → c.pending ≡ handshaking
      → Sends r c
      → Sends r ((on_handshake ec c).0)
  handshake-Sends r ec c w (inl p, same, sent) = cc (p, w)
  handshake-Sends r ec c w (inr p, same, sent) = cc (p, w)

  read-Sends :
      (r : Reply) (ec : ErrorCode) (bytes : Bytes) (c c' : Connection) (v : Verdict)
      → c.pending ≡ reading
      → on_read handler ec bytes c ≡ ok (c', v)
      → Sends r c
      → Sends r c'
  read-Sends r ec bytes c c' v w e (inl p, same, sent) = cc (p, w)
  read-Sends r ec bytes c c' v w e (inr p, same, sent) = cc (p, w)

  write-Sends :
      (r : Reply) (ec : ErrorCode) (c : Connection)
      → c.pending ≡ writing
      → Sends r c
      → Sends r ((on_write ec c).0)
  unfolding on_write
  write-Sends r success c w (_, same, sent) = (inr refl, same, sent)
  write-Sends r operation_aborted c w (_, same, sent) = (inr refl, same, sent)
  write-Sends r failure c w (_, same, sent) = (inr refl, same, sent)

  Step-created :
      {s t : Server} (id : ℕ) → Step st kind handler s t → id < s.created → id < t.created
  unfolding on_accept manager_start create_connection destroy stop_all
  Step-created {s = s} id (accept success) lt = ground (arith, lt)
  Step-created id (accept operation_aborted) lt = lt
  Step-created id (accept failure) lt = lt
  Step-created {s = s} id (handshake j ec _ w m) lt = rw (settle-created j _ s) lt
  Step-created {s = s} id (read j ec bytes _ _ w m e) lt = rw (settle-created j _ s) lt
  Step-created {s = s} id (write j ec _ w m) lt = rw (settle-created j _ s) lt
  Step-created id close lt = lt

  started-Sends : (k : Kind) (r : Reply) → Sends r (start (new_connection st k)) → ⊥
  started-Sends plain r (inl p, same, sent) = cc p
  started-Sends plain r (inr p, same, sent) = cc p
  started-Sends ssl r (inl p, same, sent) = cc p
  started-Sends ssl r (inr p, same, sent) = cc p

  Reach-Sends :
      {s t : Server} (r : Reply) (id : ℕ)
      → id < s.created
      → Sends r (s.store id)
      → Reach st kind handler s t
      → (id < t.created) × Sends r (t.store id)
  Reach-Sends r id lt p here = (lt, p)
  Reach-Sends r id lt p (next q step _) =
      let (lt', p') = Reach-Sends r id lt p q in
      (
        Step-created id step lt',
        Step-keeps st kind handler (Sends r) (λ c x. x) (handshake-Sends r) (read-Sends r)
            (write-Sends r) id (λ e. absurd (omega (arith, lt', e))) p' step,
      )

-- A connection that has begun to write its reply keeps to it, whatever completions follow on the
-- server: the reply, whose strings the write borrows, stays as it was, the buffers stay those of
-- this reply, and the connection does not read again.
pub Reach-writes_once :
    (st : Status) (kind : Kind) (handler : RequestHandler) (id : ℕ) {s t : Server}
    → Reach st kind handler (new_server st kind) s
    → Reach st kind handler s t
    → id < s.created
    → (s.store id).pending ≡ writing
    → (((t.store id).pending ≡ writing) ⊎ ((t.store id).pending ≡ idle))
      × ((t.store id).reply ≡ (s.store id).reply)
      × ((t.store id).outgoing ≡ to_buffers ((s.store id).reply))
Reach-writes_once st kind handler id {s = s} before after lt w =
    (Reach-Sends st kind handler ((s.store id).reply) id lt
      (inl w, refl, Reach-Borrows st kind handler id before w) after).1

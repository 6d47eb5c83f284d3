-- ===== src/Server/Invariant.antt =====
-- What holds of the server after any completions, in any order.
use f.Prelude.{
  ℕ, ◌<◌, ◌≡◌, ◌≢◌, refl, sym, ◌∙◌, true, not, ◌&&◌, ◌||◌, ==_iff, ==_self, List, [], ◌∷◌, ◌==◌,
  arith, Bool-cases, inl, inr, subst,
}
use f.Bytes.{Bytes}
use f.Connection.{
  RequestHandler, written, start, new_connection, Connection, Kind, plain, ssl, ErrorCode, success,
  operation_aborted, failure, idle, Verdict, keep, stop_it, threw, handle_request, after_parse,
  on_read, on_write, on_handshake,
}
use f.Reply.{Handled, replied, raised}
use f.Http.{HttpRequest}
use f.Parser.{Checked, State, Parsed, ok, fault, good, bad, indeterminate, parse, ◌>>=◌}
use f.Reply.{Reply, Status}
use f.Server.{
  Server, update, member, insert, erase, manager_start, manager_stop, stop_all, create_connection,
  on_accept, destroy, settle, new_server,
}
use f.Server.Step.{MayReport, Step, accept, handshake, read, write, close, Reach, here, next}

-- Nothing is under way only where the handler has thrown on the request.
abbrev pub Busy : RequestHandler → Connection → Type 0
Busy handler c = c.pending ≡ idle → (rep : Reply) × (handler c.request rep ≡ raised c.reply)

-- The manager holds exactly the connections whose sockets are open, and each of these has an
-- operation under way, or has been left by an exception of the handler.
pub record Inv (handler : RequestHandler) (s : Server) : Type 0 where
  pub known : (id : ℕ) → member id s.managed ≡ true → id < s.created
  pub open_iff_managed : (id : ℕ) → id < s.created → (s.store id).is_open ≡ member id s.managed
  pub busy : (id : ℕ) → member id s.managed ≡ true → Busy handler (s.store id)

pub member-insert : (j id : ℕ) (xs : List ℕ) → member j (insert id xs) ≡ (id == j || member j xs)
unfolding insert member
member-insert j id xs = elim (Bool-cases (member id xs)) [
  | inl old ↦ elim (Bool-cases (id == j)) [
    | inl same ↦ rw (old, same) (rw (← (==_iff id j).0 same) old)
    | inr other ↦ rw (old, other)
  ]
  | inr new ↦ rw new
]

pub member-erase :
    (j id : ℕ) (xs : List ℕ) → member j (erase id xs) ≡ (not (id == j) && member j xs)
unfolding erase member
member-erase j id [] = ground arith
member-erase j id (x ∷ xs) = ground (arith, member-erase j id xs)

new_server-Inv :
    (st : Status) (kind : Kind) (handler : RequestHandler) → Inv handler (new_server st kind)
unfolding member
new_server-Inv st kind handler = record {
  known = λ id h. cc;
  open_iff_managed = λ id h. elim h [ ];
  busy = λ id h. cc;
}

pub update-cases :
    (P : Connection → Type 0) (store : ℕ → Connection) (id : ℕ) (c : Connection) (j : ℕ)
    → (j ≡ id → P c)
    → (j ≢ id → P (store j))
    → P (update store id c j)
unfolding update
update-cases P store id c j this others = elim (Bool-cases (id == j)) [
  | inl same ↦ rw same (this (sym ((==_iff id j).0 same)))
  | inr other ↦ rw other (others (ground arith))
]

pub update_self : (store : ℕ → Connection) (id : ℕ) (c : Connection) → update store id c id ≡ c
unfolding update
update_self store id c = rw ==_self refl

module _ (handler : RequestHandler) where
  -- A connection that goes on has its socket as it was, and is busy if that is open.
  abbrev GoesOn : Connection → Connection × Verdict → Type 0
  GoesOn c (c', keep) = (c'.is_open ≡ c.is_open) × (c.is_open ≡ true → Busy handler c')
  GoesOn c (c', stop_it) = Unit
  GoesOn c (c', threw) = (c'.is_open ≡ c.is_open) × (c.is_open ≡ true → Busy handler c')

  stored-Inv :
      (id : ℕ) (s : Server) (c : Connection)
      → id < s.created
      → Inv handler s
      → c.is_open ≡ (s.store id).is_open
      → ((s.store id).is_open ≡ true → Busy handler c)
      → Inv handler (record s { store = update s.store id c })
  stored-Inv id s c lt v same b = record {
    known = λ j h. v.known j h;
    open_iff_managed =
        λ j h. unfold update in ground (arith, v.open_iff_managed j, v.open_iff_managed id);
    busy = λ j h.
        update-cases (Busy handler) s.store id c j (λ e. b (v.open_iff_managed id lt ∙ rw (← e) h))
          (λ ne. v.busy j h);
  }

  settle-Inv :
      (id : ℕ) (s : Server) (result : Connection × Verdict)
      → id < s.created
      → Inv handler s
      → GoesOn (s.store id) result
      → Inv handler (settle id result s)
  unfolding settle manager_stop
  settle-Inv id s (c, keep) lt v g = stored-Inv id s c lt v g.0 g.1
  settle-Inv id s (c, stop_it) lt v g = record {
    known = λ j h. ground (arith, v.known j, member-erase j id s.managed);
    open_iff_managed =
        λ j h. unfold update in ground (arith, v.open_iff_managed j, member-erase j id s.managed);
    busy = λ j h.
        update-cases (Busy handler) _ id _ j
          (λ e. absurd (ground (arith, e, h, member-erase j id s.managed)))
          (λ ne.
            update-cases (Busy handler) s.store id c j (λ e. absurd (ne e))
              (λ ne'. v.busy j (ground (arith, h, member-erase j id s.managed))));
  }
  settle-Inv id s (c, threw) lt v g = stored-Inv id s c lt v g.0 g.1

  handshake-GoesOn :
      (ec : ErrorCode) (c : Connection) → MayReport c ec → GoesOn c (on_handshake ec c)
  unfolding on_handshake
  handshake-GoesOn success c m = (refl, λ o e. cc)
  handshake-GoesOn operation_aborted c m = tt
  handshake-GoesOn failure c m = tt

  write-GoesOn : (ec : ErrorCode) (c : Connection) → MayReport c ec → GoesOn c (on_write ec c)
  unfolding on_write
  write-GoesOn success c m = tt
  write-GoesOn operation_aborted c m = (refl, λ o. cc)
  write-GoesOn failure c m = tt

  written-GoesOn :
      (p : State) (req : HttpRequest) (c : Connection)
      → GoesOn c (handle_request handler (record c { parser = p; request = req }))
  unfolding handle_request
  written-GoesOn p req c = cases (handler req c.reply) refl
    where
      cases :
          (h : Handled)
          → handler req c.reply ≡ h
          → GoesOn c (written h (record c { parser = p; request = req }))
      cases (replied r) e = (refl, λ o i. cc)
      cases (raised r) e = (refl, λ o i. (c.reply, e))

  -- The same of a read handler, which may have a fault.
  abbrev CheckedGoesOn : Connection → Checked (Connection × Verdict) → Type 0
  CheckedGoesOn c (ok result) = GoesOn c result
  CheckedGoesOn c (fault _) = Unit

  read-GoesOn :
      (ec : ErrorCode) (bytes : Bytes) (c : Connection)
      → MayReport c ec
      → CheckedGoesOn c (on_read handler ec bytes c)
  unfolding on_read after_parse
  read-GoesOn success bytes c m = cases (parse c.parser c.request bytes)
    where
      cases :
          (p : Parsed)
          → CheckedGoesOn c (
              p >>= λ (s, req, result, rest).
              ok (after_parse handler result (record c { parser = s; request = req })))
      cases (fault e) = tt
      cases (ok (s, req, good, rest)) = written-GoesOn s req c
      cases (ok (s, req, bad, rest)) = (refl, λ o i. cc)
      cases (ok (s, req, indeterminate, rest)) = (refl, λ o i. cc)
  read-GoesOn operation_aborted bytes c m = (refl, λ h. cc)
  read-GoesOn failure bytes c m = tt

  started-Busy : (st : Status) (kind : Kind) → Busy handler (start (new_connection st kind))
  started-Busy st plain e = cc
  started-Busy st ssl e = cc

  accept-Inv :
      (st : Status) (kind : Kind) (ec : ErrorCode) (s : Server)
      → Inv handler s
      → Inv handler (on_accept st kind ec s)
  unfolding on_accept manager_start create_connection
  accept-Inv st kind success s v = elim (Bool-cases s.is_accepting) [
    | inl on ↦ simp on (record {
      known = λ j h. ground (arith, v.known j, member-insert j s.created s.managed);
      open_iff_managed = λ j h.
          unfold update in
          ground (arith, v.open_iff_managed j, member-insert j s.created s.managed);
      busy = λ j h.
          update-cases (Busy handler) _ s.created _ j (λ e. rw update_self (started-Busy st kind))
            (λ ne.
              update-cases (Busy handler) s.store s.created _ j (λ e. absurd (ne e))
                (λ ne'. v.busy j (ground (arith, h, ne', member-insert j s.created s.managed))));
    })
    | inr off ↦ simp off v
  ]
  accept-Inv st kind operation_aborted s v = v
  accept-Inv st kind failure s v = v

  destroy-Inv : (s : Server) → Inv handler s → Inv handler (destroy s)
  unfolding destroy stop_all member
  destroy-Inv s v = record {
    known = λ j h. cc;
    open_iff_managed = λ j h. ground (arith, v.open_iff_managed j);
    busy = λ j h. cc;
  }

module _ (st : Status) (kind : Kind) (handler : RequestHandler) where
  Step-Inv : {s t : Server} → Inv handler s → Step st kind handler s t → Inv handler t
  Step-Inv {s = s} v (accept ec) = accept-Inv handler st kind ec s v
  Step-Inv {s = s} v (handshake id ec lt _ m) =
      settle-Inv handler id s _ lt v (handshake-GoesOn handler ec (s.store id) m)
  Step-Inv {s = s} v (read id ec bytes _ lt _ m e) =
      let goes : CheckedGoesOn handler (s.store id) (on_read handler ec bytes (s.store id)) =
        read-GoesOn handler ec bytes (s.store id) m in
      settle-Inv handler id s _ lt v (subst (CheckedGoesOn handler (s.store id)) e goes)
  Step-Inv {s = s} v (write id ec lt _ m) =
      settle-Inv handler id s _ lt v (write-GoesOn handler ec (s.store id) m)
  Step-Inv {s = s} v close = destroy-Inv handler s v

  -- Whatever completions Asio runs, in whatever order, and whatever the handler throws: the manager
  -- holds exactly the connections whose sockets are open, and each of these has an operation
  -- pending, unless the handler has thrown on its request.
  pub Reach-Inv : {s : Server} → Reach st kind handler (new_server st kind) s → Inv handler s
  Reach-Inv here = new_server-Inv st kind handler
  Reach-Inv (next r step _) = Step-Inv (Reach-Inv r) step

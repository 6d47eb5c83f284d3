-- ===== src/Server/Turns.antt =====
-- One connection against what is promised of it.
use f.Prelude.{◌≡◌, refl, ap, sym, ◌∙◌, ◌⊎◌, inl, inr, true, false, [], ◌++◌}
use f.Bytes.{Bytes}
use f.Http.{HttpRequest, empty_request}
use f.Parser.{method_start, good, bad, indeterminate, Checked, ok, fault, ◌>>=◌, Parsed, parse}
use f.Parser.Chunks.{parse-append}
use f.Reply.{Status, bad_request, stock_reply, to_buffers}
use f.Connection.{
  RequestHandler, written, Connection, Kind, plain, ssl, ErrorCode, success, operation_aborted,
  failure, Verdict, keep, stop_it, threw, idle, handshaking, reading, writing, blank_reply,
  new_connection, start, stop, handle_request, after_parse, on_read, on_write, on_handshake,
}
use f.Reply.{Handled, replied, raised}
use f.Server.Spec.{Phase, shaking, receiving, answering, failing, over, Moves, first_phase}
use f.Server.Step.{MayReport}

-- The connection is in this phase.
abbrev pub Shows : Status → Connection → Phase → Type 0
Shows st c shaking =
    (c.is_open ≡ true)
    × (c.pending ≡ handshaking)
    × (c.parser ≡ method_start)
    × (c.request ≡ empty_request)
    × (c.reply ≡ blank_reply st)
Shows st c (receiving stream) =
    (c.is_open ≡ true)
    × (c.pending ≡ reading)
    × ((rest : Bytes) × (parse method_start empty_request stream
          ≡ ok (c.parser, c.request, indeterminate, rest)))
    × (c.reply ≡ blank_reply st)
Shows st c (answering stream r) =
    (c.is_open ≡ true) × (c.pending ≡ writing) × (c.reply ≡ r) × (c.outgoing ≡ to_buffers r)
Shows st c (failing stream) = (c.is_open ≡ true) × (c.pending ≡ idle)
Shows st c over = c.is_open ≡ false

-- What the connection is behind the call of `connection_manager_.stop`, where there is one.
abbrev pub outcome : Connection × Verdict → Connection
outcome (c, keep) = c
outcome (c, stop_it) = stop c
outcome (c, threw) = c

module _ (st : Status) (handler : RequestHandler) where
  abbrev pub spec_handler : HttpRequest → Handled
  spec_handler req = handler req (blank_reply st)

  -- The connection goes from the phase `p` to some phase, and is in that one.
  abbrev pub Turns : Phase → Connection → Type 0
  Turns p c = (q : Phase) × ((q ≡ p) ⊎ Moves spec_handler p q) × Shows st c q

  pub closed-Turns : (p : Phase) (c : Connection) → c.is_open ≡ false → Turns p c
  closed-Turns p c h = (over, inr tt, h)

  pub on_handshake-Turns :
      (ec : ErrorCode) (c : Connection) (p : Phase)
      → c.pending ≡ handshaking
      → Shows st c p
      → Turns p (outcome (on_handshake ec c))
  unfolding on_handshake parse
  on_handshake-Turns success c shaking h v =
      (receiving [], inr refl, (v.0, refl, ([], rw (v.2, v.3)), v.4))
  on_handshake-Turns success c over h v = (over, inl refl, v)
  on_handshake-Turns success c (receiving stream) h v = cc (h, v.1)
  on_handshake-Turns success c (answering stream r) h v = cc (h, v.1)
  on_handshake-Turns success c (failing stream) h v = cc (h, v.1)
  on_handshake-Turns operation_aborted c p h v = (over, inr tt, refl)
  on_handshake-Turns failure c p h v = (over, inr tt, refl)

  pub on_write-Turns :
      (ec : ErrorCode) (c : Connection) (p : Phase)
      → c.pending ≡ writing
      → MayReport c ec
      → Turns p (outcome (on_write ec c))
  unfolding on_write
  on_write-Turns success c p h m = (over, inr tt, refl)
  on_write-Turns operation_aborted c p h m = (over, inr tt, m)
  on_write-Turns failure c p h m = (over, inr tt, refl)

  -- The request parser over all that has been received, which is the parser as it stands over the
  -- new bytes.
  whole :
      (c : Connection) (stream bytes : Bytes) {rest : Bytes}
      → parse method_start empty_request stream ≡ ok (c.parser, c.request, indeterminate, rest)
      → parse method_start empty_request (stream ++ bytes) ≡ parse c.parser c.request bytes
  whole c stream bytes h = parse-append method_start empty_request stream bytes ∙ rw h refl

  -- The phase that a read leads to, where the parser has no fault.
  abbrev pub ReadTurns : Phase → Checked (Connection × Verdict) → Type 0
  ReadTurns p (ok result) = Turns p (outcome result)
  ReadTurns p (fault e) = Unit

  -- A request has been read, and the handler has been called.
  written-Turns :
      (stream bytes : Bytes) (c : Connection) (m : Handled) {rest : Bytes}
      → parse method_start empty_request (stream ++ bytes) ≡ ok (c.parser, c.request, good, rest)
      → c.is_open ≡ true
      → spec_handler c.request ≡ m
      → Turns (receiving stream) (outcome (written m c))
  written-Turns stream bytes c (replied r) h opened e = (
    answering (stream ++ bytes) r,
    inr (bytes, refl, inl (c.parser, c.request, _, h, e)),
    (opened, refl, refl, refl),
  )
  written-Turns stream bytes c (raised r) h opened e = (
    failing (stream ++ bytes),
    inr (bytes, refl, (c.parser, c.request, _, r, h, e)),
    (opened, refl),
  )

  written-closed :
      (m : Handled) (c : Connection) → c.is_open ≡ false → (outcome (written m c)).is_open ≡ false
  written-closed (replied r) c closed = closed
  written-closed (raised r) c closed = closed

  receiving-ReadTurns :
      (bytes stream : Bytes) (c : Connection)
      → Shows st c (receiving stream)
      → ReadTurns (receiving stream) (on_read handler success bytes c)
  unfolding on_read after_parse handle_request
  receiving-ReadTurns bytes stream c (opened, reads, parsed, blank) =
      cases (parse c.parser c.request bytes) (whole c stream bytes parsed.1)
    where
      cases :
          (m : Parsed)
          → parse method_start empty_request (stream ++ bytes) ≡ m
          → ReadTurns (receiving stream) (
              m >>= λ (s, req, result, rest).
              ok (after_parse handler result (record c { parser = s; request = req })))
      cases (fault e) h = tt
      cases (ok (s, req, good, rest)) h =
          written-Turns stream bytes (record c { parser = s; request = req }) (handler req c.reply)
            h opened (ap (handler req) (sym blank))
      cases (ok (s, req, bad, rest)) h = (
        answering (stream ++ bytes) (stock_reply bad_request),
        inr (bytes, refl, inr (s, req, rest, h, refl)),
        (opened, refl, refl, refl),
      )
      cases (ok (s, req, indeterminate, rest)) h = (
        receiving (stream ++ bytes),
        inr (bytes, refl, (s, req, rest, h)),
        (opened, refl, (rest, h), blank),
      )

  over-ReadTurns :
      (bytes : Bytes) (c : Connection)
      → c.is_open ≡ false
      → ReadTurns over (on_read handler success bytes c)
  unfolding on_read after_parse handle_request
  over-ReadTurns bytes c closed = cases (parse c.parser c.request bytes)
    where
      cases :
          (m : Parsed)
          → ReadTurns over (
              m >>= λ (s, req, result, rest).
              ok (after_parse handler result (record c { parser = s; request = req })))
      cases (fault e) = tt
      cases (ok (s, req, good, rest)) = (
        over,
        inl refl,
        written-closed (handler req c.reply) (record c { parser = s; request = req }) closed,
      )
      cases (ok (s, req, bad, rest)) = (over, inl refl, closed)
      cases (ok (s, req, indeterminate, rest)) = (over, inl refl, closed)

  pub on_read-Turns :
      (ec : ErrorCode) (bytes : Bytes) (c : Connection) (p : Phase)
      → c.pending ≡ reading
      → MayReport c ec
      → Shows st c p
      → ReadTurns p (on_read handler ec bytes c)
  on_read-Turns success bytes c shaking h m v = cc (h, v.1)
  on_read-Turns success bytes c (receiving stream) h m v = receiving-ReadTurns bytes stream c v
  on_read-Turns success bytes c (answering stream r) h m v = cc (h, v.1)
  on_read-Turns success bytes c (failing stream) h m v = cc (h, v.1)
  on_read-Turns success bytes c over h m v = over-ReadTurns bytes c v
  on_read-Turns operation_aborted bytes c p h m v =
      unfold on_read in closed-Turns p (record c { pending = idle }) m
  on_read-Turns failure bytes c p h m v =
      unfold on_read in closed-Turns p (stop (record c { pending = idle })) refl

  pub first_phase-Shows :
      (kind : Kind) → Shows st (start (new_connection st kind)) (first_phase kind)
  unfolding parse
  first_phase-Shows plain = (refl, refl, ([], refl), refl)
  first_phase-Shows ssl = (refl, refl, refl, refl, refl)

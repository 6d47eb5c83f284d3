-- ===== src/Connection/Stream.antt =====
-- A connection and the stream of bytes that it reads.
use f.Prelude.{◌+◌, ◌≤◌, ◌≡◌, refl, sym, ◌∙◌, ap, true, false, List, [], ◌∷◌, ◌++◌, flatten}
use f.Bytes.{Bytes}
use f.Http.{HttpRequest, empty_request}
use f.Parser.{
  State, method_start, expecting_newline_3, good, bad, indeterminate, Checked, ok, fault, ◌>>=◌,
  Parsed, continue, int_max, parse,
}
use f.Parser.Chunks.{parse-append}
use f.Parser.RoundTrip.{IsRequest, render, parse-render}
use f.Reply.{Reply, Status, bad_request, stock_reply, to_buffers}
use f.Connection.{
  written, Connection, RequestHandler, reading, writing, Kind, new_connection, success, after_parse,
  handle_request, on_read, is_reading, deliver, blank_reply, do_write,
}
use f.Reply.{Handled, replied, raised}

-- The connection behind one read of all these bytes.
abbrev pub read_all : RequestHandler → Bytes → Connection → Checked Connection
read_all handler bytes c = on_read handler success bytes c >>= λ (c', _). ok c'

abbrev resume : RequestHandler → Parsed → Connection → Checked Connection
resume handler p c = p >>= λ (s, req, result, rest).
    ok (after_parse handler result (record c { parser = s; request = req })).0

read_all-resume :
    (handler : RequestHandler) (bytes : Bytes) (c : Connection)
    → read_all handler bytes c ≡ resume handler (parse c.parser c.request bytes) c
unfolding on_read
read_all-resume handler bytes c = cases (parse c.parser c.request bytes)
  where
    cases :
        (p : Parsed)
        → (p
            >>= (λ (s, req, result, rest).
                ok (after_parse handler result (record c { parser = s; request = req })))
            >>= λ (c', _). ok c')
          ≡ resume handler p c
    cases (ok _) = refl
    cases (fault e) = refl

-- Behind the handler another operation is pending than before, or none.
written_pending :
    (h : Handled) (c : Connection)
    → (written h (record c { pending = reading })).0 ≡ (written h c).0
written_pending (replied r) c = refl
written_pending (raised r) c = refl

written-is_reading : (h : Handled) (c : Connection) → is_reading (written h c).0.pending ≡ false
written-is_reading (replied r) c = refl
written-is_reading (raised r) c = refl

-- What is pending, and what the last pieces have left in the parser, does not count.
resume_pending :
    (handler : RequestHandler) (p : Parsed) (s : State) (req : HttpRequest) (c : Connection)
    → resume handler p (record c { parser = s; request = req; pending = reading })
      ≡ resume handler p c
unfolding after_parse handle_request
resume_pending handler (fault e) s req c = refl
resume_pending handler (ok (s', req', good, _)) s req c =
    ap ok (written_pending (handler req' c.reply) (record c { parser = s'; request = req' }))
resume_pending handler (ok (_, _, bad, _)) s req c = refl
resume_pending handler (ok (_, _, indeterminate, _)) s req c = refl

pub deliver_stopped :
    (handler : RequestHandler) (chunks : List Bytes) (c : Connection)
    → is_reading c.pending ≡ false
    → deliver handler chunks c ≡ ok c
unfolding deliver
deliver_stopped handler [] c h = refl
deliver_stopped handler (chunk ∷ chunks) c h = rw (h, deliver)

pub deliver_reading :
    (handler : RequestHandler) (chunk : Bytes) (chunks : List Bytes) (c : Connection)
    → c.pending ≡ reading
    → deliver handler (chunk ∷ chunks) c
      ≡ (on_read handler success chunk c >>= λ (c', _). deliver handler chunks c')
unfolding deliver
deliver_reading handler chunk chunks c h =
    let reads : is_reading c.pending ≡ true = ap is_reading h in rw (reads, deliver)

deliver_round :
    (handler : RequestHandler) (chunks : List Bytes) (c : Connection) (p : Parsed)
    → ((s : State) (req : HttpRequest)
        → let c' = record c { parser = s; request = req; pending = reading } in
          deliver handler chunks c' ≡ read_all handler (flatten chunks) c')
    → (p
        >>= (λ (s, req, result, rest).
            ok (after_parse handler result (record c { parser = s; request = req })))
        >>= λ (c', _). deliver handler chunks c')
      ≡ resume handler
          (p >>= λ (s, req, result, rest).
            continue result s req (rest ++ flatten chunks) (parse s req (flatten chunks)))
          c
unfolding after_parse handle_request
deliver_round handler chunks c (fault e) ih = refl
deliver_round handler chunks c (ok (s, req, good, rest)) ih =
    deliver_stopped handler chunks _
      (written-is_reading (handler req c.reply) (record c { parser = s; request = req }))
deliver_round handler chunks c (ok (s, req, bad, rest)) ih = deliver_stopped handler chunks _ refl
deliver_round handler chunks c (ok (s, req, indeterminate, rest)) ih =
    ih s req
    ∙ read_all-resume handler (flatten chunks) _
    ∙ resume_pending handler (parse s req (flatten chunks)) s req c

read_nothing :
    (handler : RequestHandler) (c : Connection)
    → c.pending ≡ reading
    → ok c ≡ resume handler (parse c.parser c.request []) c
unfolding parse after_parse
read_nothing handler c h = ap (λ p. ok (record c { pending = p })) h

-- However a stream is cut into pieces, a connection that reads them one by one ends up as one that
-- reads all of it at once: in the same state, with the same request and the same bytes to send.
deliver-flatten :
    (handler : RequestHandler) (chunks : List Bytes) (c : Connection)
    → c.pending ≡ reading
    → deliver handler chunks c ≡ read_all handler (flatten chunks) c
unfolding flatten on_read
deliver-flatten handler [] c h =
    unfold deliver in (read_nothing handler c h ∙ sym (read_all-resume handler [] c))
deliver-flatten handler (chunk ∷ chunks) c h =
    deliver_reading handler chunk chunks c h
    ∙ deliver_round handler chunks c (parse c.parser c.request chunk)
        (λ s req. deliver-flatten handler chunks _ refl)
    ∙ ap (λ p. resume handler p c) (sym (parse-append c.parser c.request chunk (flatten chunks)))
    ∙ sym (read_all-resume handler (chunk ++ flatten chunks) c)

-- A connection that is reads what a client sends.
abbrev pub reading_connection : Status → Kind → Connection
reading_connection st kind = record (new_connection st kind) { pending = reading }

-- What the handler makes of a request of the grammar decides how a connection that starts to read
-- that request, in any pieces with any bytes behind it, is left: a reply is written, and behind an
-- exception nothing is pending.
pub deliver-handled :
    (handler : RequestHandler) (st : Status) (kind : Kind) (r : HttpRequest) (rest : Bytes)
    (chunks : List Bytes) {outcome : Handled}
    → IsRequest r
    → r.http_version_major + b'0' ≤ int_max
    → r.http_version_minor + b'0' ≤ int_max
    → flatten chunks ≡ render r rest
    → handler r (blank_reply st) ≡ outcome
    → deliver handler chunks (reading_connection st kind)
      ≡ ok
          (written outcome
            (record (reading_connection st kind) { parser = expecting_newline_3; request = r })).0
unfolding after_parse handle_request
deliver-handled handler st kind r rest chunks h major minor e leaves =
    let c = reading_connection st kind in
    deliver-flatten handler chunks c refl
    ∙ read_all-resume handler (flatten chunks) c
    ∙ ap (λ p. resume handler p c)
        (ap (parse method_start empty_request) e ∙ parse-render r rest h major minor)
    ∙ ap (λ m. ok (written m (record c { parser = expecting_newline_3; request = r })).0) leaves

-- A request of the grammar, with versions that leave room for one more `'0'` in an `int`, sent in
-- any pieces with any bytes behind it, to a connection that starts to read, is answered by the reply
-- that the handler makes of that request, if it returns one: these are the bytes that are written,
-- and nothing more is read.
pub deliver-render :
    (handler : RequestHandler) (st : Status) (kind : Kind) (r : HttpRequest) (rest : Bytes)
    (chunks : List Bytes) {answer : Reply}
    → IsRequest r
    → r.http_version_major + b'0' ≤ int_max
    → r.http_version_minor + b'0' ≤ int_max
    → flatten chunks ≡ render r rest
    → handler r (blank_reply st) ≡ replied answer
    → deliver handler chunks (reading_connection st kind)
      ≡ ok (record (reading_connection st kind) {
        pending = writing;
        parser = expecting_newline_3;
        request = r;
        reply = answer;
        outgoing = to_buffers answer;
      })
deliver-render handler st kind r rest chunks h major minor e replies =
    deliver-handled handler st kind r rest chunks h major minor e replies

-- A stream that the parser refuses, in any pieces, is answered by the stock reply for
-- `bad_request`, and the router is not called.
deliver-bad :
    (handler : RequestHandler) (st : Status) (kind : Kind) (chunks : List Bytes) {s : State}
    {req : HttpRequest} {rest : Bytes}
    → parse method_start empty_request (flatten chunks) ≡ ok (s, req, bad, rest)
    → deliver handler chunks (reading_connection st kind)
      ≡ ok (
          do_write
            (stock_reply bad_request)
            (record (reading_connection st kind) { parser = s; request = req }))
unfolding after_parse
deliver-bad handler st kind chunks e =
    let c = reading_connection st kind in
    deliver-flatten handler chunks c refl
    ∙ read_all-resume handler (flatten chunks) c
    ∙ ap (λ p. resume handler p c) e

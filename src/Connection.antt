-- ===== src/Connection.antt =====
-- lib/base_connection.hpp, lib/plain_connection.cpp, lib/ssl_connection.cpp and
-- lib/request_handler.cpp. Asio runs the asynchronous operations: a connection has at most one that
-- is not done, and its completion is an event with what Asio hands to the completion handler.
pub mod Stream
use f.Prelude.{ℕ, Bool, true, false, not, List, [], ◌∷◌, ◌++◌, ◌==◌, if◌then◌else◌}
use f.Bytes.{Bytes}
use f.Http.{HttpRequest, empty_request}
use f.Parser.{State, reset, ResultType, good, bad, indeterminate, Checked, ok, fault, ◌>>=◌, parse}
use f.Reply.{Reply, Handled, replied, raised, Status, bad_request, stock_reply, to_buffers}

-- `std::error_code`, as far as the code tells its values apart.
pub data ErrorCode : Type 0 where
  success operation_aborted failure : ErrorCode

-- The operation that has been started and is not done.
pub data Pending : Type 0 where
  idle handshaking reading writing : Pending

-- Which class derived from `connection` it is.
pub data Kind : Type 0 where
  plain ssl : Kind

-- `request_handler`: what `set` has stored.
abbrev pub RequestHandler : Type 0
RequestHandler = HttpRequest → Reply → Handled

-- Nothing has been stored: a call is the exception `std::bad_function_call`.
abbrev pub unset : RequestHandler
unset req rep = raised rep

-- `base_connection`, with what is known of its socket, and the buffers of its last write.
pub record Connection : Type 0 where
  pub kind : Kind
  pub is_open : Bool
  pub is_shut_down : Bool
  pub pending : Pending
  pub parser : State
  pub request : HttpRequest
  pub reply : Reply
  pub outgoing : List Bytes

-- `reply_{}`. Its status is 0, which is no enumerator, and no code reads it: here it is any.
abbrev pub blank_reply : Status → Reply
blank_reply s = record { status = s; headers = []; content = [] }

-- The constructors of the two classes.
abbrev pub new_connection : Status → Kind → Connection
new_connection s kind = record {
  kind = kind;
  is_open = true;
  is_shut_down = false;
  pending = idle;
  parser = reset;
  request = empty_request;
  reply = blank_reply s;
  outgoing = [];
}

-- `plain_connection::start`, which reads, and `ssl_connection::start`, which makes a handshake.
abbrev pub first_operation : Kind → Pending
first_operation plain = reading
first_operation ssl = handshaking

abbrev pub start : Connection → Connection
start c = record c { pending = first_operation c.kind }

-- `stop`: it closes the socket, and Asio then completes what is pending.
abbrev pub stop : Connection → Connection
stop c = record c { is_open = false }

-- What a completion handler does beside the change of the connection: nothing, a call of
-- `connection_manager_.stop` for the connection, or an exception that leaves it.
pub data Verdict : Type 0 where
  keep stop_it threw : Verdict

-- `do_write`
abbrev pub do_write : Reply → Connection → Connection
do_write r c = record c { reply = r; pending = writing; outgoing = to_buffers r }

-- `do_write` behind the handler, or its exception.
abbrev pub written : Handled → Connection → Connection × Verdict
written (replied r) c = (do_write r c, keep)
written (raised r) c = (record c { pending = idle; reply = r }, threw)

-- `handle_request`, and `do_write` behind it.
unfoldable pub handle_request : RequestHandler → Connection → Connection × Verdict
handle_request handler c = written (handler c.request c.reply) c

-- The branches of the read handler on the parser's result.
unfoldable pub after_parse : RequestHandler → ResultType → Connection → Connection × Verdict
after_parse handler good c = handle_request handler c
after_parse handler bad c = (do_write (stock_reply bad_request) c, keep)
after_parse handler indeterminate c = (record c { pending = reading }, keep)

-- The handler of `async_read_some`.
unfoldable pub on_read :
    RequestHandler → ErrorCode → Bytes → Connection → Checked (Connection × Verdict)
on_read handler success bytes c = do
  (s, req, result, rest) ← parse c.parser c.request bytes
  ok (after_parse handler result (record c { parser = s; request = req }))
on_read handler operation_aborted bytes c = ok (record c { pending = idle }, keep)
on_read handler failure bytes c = ok (record c { pending = idle }, stop_it)

-- The handler of `async_write`.
unfoldable pub on_write : ErrorCode → Connection → Connection × Verdict
on_write success c = (record c { pending = idle; is_shut_down = true }, stop_it)
on_write operation_aborted c = (record c { pending = idle }, keep)
on_write failure c = (record c { pending = idle }, stop_it)

-- The handler of `async_handshake`; it does not tell an abort from another error.
unfoldable pub on_handshake : ErrorCode → Connection → Connection × Verdict
on_handshake success c = (record c { pending = reading }, keep)
on_handshake operation_aborted c = (record c { pending = idle }, stop_it)
on_handshake failure c = (record c { pending = idle }, stop_it)

abbrev pub is_reading : Pending → Bool
is_reading reading = true
is_reading _ = false

-- The reads of one connection, one after the other, with no error. A read is made only where the
-- one before has started it.
unfoldable pub deliver : RequestHandler → List Bytes → Connection → Checked Connection
deliver handler [] c = ok c
deliver handler (chunk ∷ chunks) c = elim (is_reading c.pending) [
  | false ↦ ok c
  | true ↦ on_read handler success chunk c >>= λ (c', verdict). deliver handler chunks c'
]

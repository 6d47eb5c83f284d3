-- ===== src/Tests/Serving.antt =====
-- The theorems on connections and on the server at concrete inputs.
use f.Prelude.{false, ◌<◌, ◌⊎◌, ◌≡◌, ◌≤◌, All, length, refl, [], ◌∷◌, List, arith, flatten, true}
use f.Bytes.{Bytes, codes, equal, starts_with, has_dotdot}
use f.Bytes.Decimal.{to_string}
use f.Http.{HttpRequest, empty_request}
use f.Parser.{
  parse, consume, is_not_token, is_ctl, is_digit, append_digit, expecting_newline_3, good, ok,
}
use f.Parser.RoundTrip.{render}
use f.Reply.{not_found, to_buffers}
use f.Router.{
  route_path, serve_found, serve_first, serve_if_match, serve_resource, is_refused, route,
}
use f.Dynamic
use f.Static
use f.FileSystem.{join, relative_path}
use f.Map.{lookup}
use f.Text.{match_pattern, match_from, split_string}
use f.Url.{url_decode, decode_from}
use f.Connection.{
  RequestHandler, unset, idle, keep, operation_aborted, Connection, Kind, plain, ssl, success,
  writing, blank_reply, do_write, deliver, after_parse, handle_request, on_write, on_read,
  on_handshake, threw,
}
use f.Reply.{replied, raised, stock_reply}
use f.Connection.Stream.{reading_connection, deliver-render}
use f.Server.{
  destroy, stop_all, Server, new_server, on_accept, settle, manager_start, create_connection,
  insert, member, update,
}
use f.Server.Spec.{View, new_view, Run}
use f.Server.Turns.{spec_handler}
use f.Server.Refines.{IsViewed, Reach-Run}
use f.Server.Serves.{IsServed, on_accept-IsServed}
use f.Server.Step.{buffer_size, read, accept, handshake, write, Reach, here, next}
use f.Server.Invariant.{Inv, Reach-Inv}
use f.Server.Shutdown.{destroy-closed}
use f.Server.Once.{Reach-writes_once}
use f.Server.Raised.{IsStuck, left, read-IsStuck}
use f.Tests.Parsing.{sample, sample-IsRequest}
use f.Tests.Replies.{site}
use f.Tests.Routing.{router}

abbrev serve : RequestHandler
serve = route site router

-- There is no such file.
sample_replies : serve sample (blank_reply not_found) ≡ replied (stock_reply not_found)
unfolding route route_path url_decode decode_from is_refused has_dotdot serve_found lookup equal
    serve_first serve_if_match serve_resource Dynamic.serve_if_match Static.serve_if_match site
    match_pattern match_from split_string starts_with Static.serve_path join relative_path
    Static.serve_file
sample_replies = refl

-- The request in three pieces, with bytes behind it.
abbrev pub pieces : List Bytes
pieces =
    codes "GET /hel" ∷ codes "lo.htm HTTP/1.1\r\nAccept-Lang" ∷ codes "uage: en-us\r\n\r\nxy" ∷ []

pub flatten-pieces : flatten pieces ≡ render sample (codes "xy")
unfolding flatten to_string
flatten-pieces = refl

deliver-render_example :
    deliver serve pieces (reading_connection not_found plain)
    ≡ ok (record (reading_connection not_found plain) {
      pending = writing;
      parser = expecting_newline_3;
      request = sample;
      reply = stock_reply not_found;
      outgoing = to_buffers (stock_reply not_found);
    })
deliver-render_example =
    deliver-render serve not_found plain sample (codes "xy") pieces sample-IsRequest (omega arith)
      (omega arith) flatten-pieces sample_replies

abbrev accepted : Kind → Server
accepted kind = on_accept not_found kind success (new_server not_found kind)

abbrev shaken : Server
shaken = settle 0 (on_handshake success ((accepted ssl).store 0)) (accepted ssl)

shaken_ready : shaken.is_accepting ≡ true
unfolding on_accept manager_start create_connection settle on_handshake
shaken_ready = refl

shaken_alive : (on_accept not_found ssl success shaken).is_accepting ≡ true
unfolding on_accept manager_start create_connection settle on_handshake
shaken_alive = refl

-- One connection is accepted and makes its handshake, and another one is accepted.
shaken-Reach :
    Reach not_found ssl serve (new_server not_found ssl) (on_accept not_found ssl success shaken)
unfolding on_accept manager_start create_connection update insert member
shaken-Reach =
    next (next (next here (accept success) refl) (handshake 0 success (omega arith) refl tt) refl)
      (accept success) shaken_ready

Reach-Inv_example : Inv serve (on_accept not_found ssl success shaken)
Reach-Inv_example = Reach-Inv not_found ssl serve shaken-Reach

abbrev destroyed : Server
destroyed = destroy (on_accept not_found ssl success shaken)

-- The read of the first connection is aborted, as its socket has been closed.
aborted-Reach :
    Reach not_found ssl serve destroyed
      (settle 0 (record (destroyed.store 0) { pending = idle }, keep) destroyed)
unfolding on_accept manager_start create_connection update insert member settle destroy stop_all
    on_read on_handshake
aborted-Reach =
    next here (read 0 operation_aborted [] (omega arith) (omega arith) refl refl refl) tt

second_created :
    1 < (settle 0 (record (destroyed.store 0) { pending = idle }, keep) destroyed).created
unfolding on_accept manager_start create_connection settle destroy stop_all on_handshake
second_created = omega arith

destroy-closed_example :
    ((settle 0 (record (destroyed.store 0) { pending = idle }, keep) destroyed).managed ≡ [])
    × (((settle 0 (record (destroyed.store 0) { pending = idle }, keep) destroyed).store 1).is_open
        ≡ false)
destroy-closed_example =
    destroy-closed not_found ssl serve 1 shaken-Reach shaken_alive aborted-Reach second_created

Reach-Run_example :
    (v : View) × Run ssl (spec_handler not_found serve) new_view v
    × IsViewed not_found ssl serve (on_accept not_found ssl success shaken) v
Reach-Run_example = Reach-Run not_found ssl serve shaken-Reach

served_fits :
    ((new_server not_found ssl).is_accepting ≡ true)
    × All (λ chunk. length chunk ≤ buffer_size) pieces
served_fits = (refl, ground arith)

-- The first connection of a new server for TLS.
on_accept-IsServed_example :
    (t : Server) × Reach not_found ssl serve
      (on_accept not_found ssl success (new_server not_found ssl))
      t
    × IsServed 0 (to_buffers (stock_reply not_found)) t
on_accept-IsServed_example =
    on_accept-IsServed not_found ssl serve (new_server not_found ssl) sample (codes "xy") pieces
      served_fits.0 served_fits.1 sample-IsRequest (omega arith) (omega arith) flatten-pieces
      sample_replies

first_client :
    (0 < (accepted plain).created)
    × (member 0 (accepted plain).managed ≡ true)
    × (((accepted plain).store 0).is_open ≡ true)
unfolding on_accept manager_start create_connection update insert member
first_client = (omega arith, refl, refl)

parse-first :
    parse
      ((accepted plain).store 0).parser
      ((accepted plain).store 0).request
      (codes "GET / HTTP/1.0\r\n\r\n")
    ≡ ok (
      expecting_newline_3,
      record empty_request { method = codes "GET"; uri = codes "/"; http_version_major = 1 },
      good,
      [],
    )
unfolding on_accept manager_start create_connection update insert member parse consume is_not_token
    is_ctl is_digit append_digit
parse-first = refl

first_blank :
    unset
      (record empty_request { method = codes "GET"; uri = codes "/"; http_version_major = 1 })
      ((accepted plain).store 0).reply
    ≡ raised (blank_reply not_found)
unfolding on_accept manager_start create_connection update insert member
first_blank = refl

abbrev stuck : Connection
stuck =
    left expecting_newline_3
      (record empty_request { method = codes "GET"; uri = codes "/"; http_version_major = 1 })
      (blank_reply not_found) ((accepted plain).store 0)

stuck_alive : (settle 0 (stuck, threw) (accepted plain)).is_accepting ≡ true
unfolding on_accept settle manager_start create_connection
stuck_alive = refl

-- Another client is accepted afterwards.
stuck-Reach :
    Reach not_found plain unset
      (settle 0 (stuck, threw) (accepted plain))
      (on_accept not_found plain success (settle 0 (stuck, threw) (accepted plain)))
stuck-Reach = next here (accept success) stuck_alive

stuck_accepting :
    (on_accept not_found plain success (settle 0 (stuck, threw) (accepted plain))).is_accepting
    ≡ true
unfolding on_accept settle manager_start create_connection
stuck_accepting = refl

read-IsStuck_example :
    (on_read unset success (codes "GET / HTTP/1.0\r\n\r\n") ((accepted plain).store 0)
      ≡ ok (stuck, threw))
    × IsStuck 0 (on_accept not_found plain success (settle 0 (stuck, threw) (accepted plain)))
read-IsStuck_example =
    read-IsStuck not_found plain unset 0 (codes "GET / HTTP/1.0\r\n\r\n") [] expecting_newline_3
      (record empty_request { method = codes "GET"; uri = codes "/"; http_version_major = 1 })
      (blank_reply not_found) (accepted plain) first_client.0 first_client.1 first_client.2
      parse-first first_blank stuck-Reach stuck_accepting

abbrev first_bytes : Bytes
first_bytes = codes "GET / HTTP/1.0\r\n\r\n"

abbrev first_request : HttpRequest
first_request = record empty_request {
  method = codes "GET";
  uri = codes "/";
  http_version_major = 1;
}

first_replies : serve first_request (blank_reply not_found) ≡ replied (stock_reply not_found)
unfolding route route_path url_decode decode_from is_refused has_dotdot serve_found lookup equal
    serve_first serve_if_match serve_resource Dynamic.serve_if_match Static.serve_if_match site
    match_pattern match_from split_string starts_with Static.serve_path join relative_path
    Static.serve_file
first_replies = refl

-- The first connection behind the read of this request.
abbrev answered : Connection
answered =
    do_write (stock_reply not_found)
      (record ((accepted plain).store 0) { parser = expecting_newline_3; request = first_request })

first_read : on_read serve success first_bytes ((accepted plain).store 0) ≡ ok (answered, keep)
unfolding on_read after_parse handle_request on_accept manager_start create_connection update
first_read = rw (parse-first, first_replies) refl

abbrev answering_server : Server
answering_server = settle 0 (answered, keep) (accepted plain)

answering-Reach : Reach not_found plain serve (new_server not_found plain) answering_server
unfolding on_accept manager_start create_connection update
answering-Reach =
    next (next here (accept success) refl)
      (read 0 success first_bytes (omega arith) (omega arith) refl tt first_read) refl

answering_pending : (0 < answering_server.created) × ((answering_server.store 0).pending ≡ writing)
unfolding settle on_accept manager_start create_connection update
answering_pending = (omega arith, refl)

answering_alive : answering_server.is_accepting ≡ true
unfolding settle on_accept manager_start create_connection
answering_alive = refl

abbrev written_server : Server
written_server = settle 0 (on_write success (answering_server.store 0)) answering_server

written-Reach : Reach not_found plain serve answering_server written_server
written-Reach =
    next here (write 0 success (answering_pending.0) (answering_pending.1) tt) answering_alive

Reach-writes_once_example :
    (((written_server.store 0).pending ≡ writing) ⊎ ((written_server.store 0).pending ≡ idle))
    × ((written_server.store 0).reply ≡ (answering_server.store 0).reply)
    × ((written_server.store 0).outgoing ≡ to_buffers ((answering_server.store 0).reply))
Reach-writes_once_example =
    Reach-writes_once not_found plain serve 0 answering-Reach written-Reach answering_pending.0
      answering_pending.1

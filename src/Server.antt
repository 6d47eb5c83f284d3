-- ===== src/Server.antt =====
-- lib/connection_manager.cpp and lib/http_server.cpp, with the connections that they share. A
-- connection is a number, as a `connection_ptr` is an address; `store` holds what it points to.
pub mod Step
pub mod Invariant
pub mod Raised
pub mod Shutdown
pub mod Once
pub mod Spec
pub mod Turns
pub mod Refines
pub mod Leads
pub mod Serves
use f.Prelude.{ℕ, suc, ◌+◌, Bool, true, false, not, ◌||◌, List, [], ◌∷◌, ◌==◌, if◌then◌else◌}
use f.Reply.{Status}
use f.Connection.{
  Connection, Kind, ErrorCode, success, Verdict, keep, stop_it, threw, new_connection, start, stop,
}

-- `http_server` with its `connection_manager`, whose set of connections is `managed`.
pub record Server : Type 0 where
  pub store : ℕ → Connection
  pub created : ℕ
  pub managed : List ℕ
  pub is_accepting : Bool

unfoldable pub update : (ℕ → Connection) → ℕ → Connection → ℕ → Connection
update store id c j = if id == j then c else store j

unfoldable pub member : ℕ → List ℕ → Bool
member id [] = false
member id (x ∷ xs) = x == id || member id xs

-- `connections_.insert(c)`
unfoldable pub insert : ℕ → List ℕ → List ℕ
insert id xs = if member id xs then xs else id ∷ xs

-- `connections_.erase(c)`
unfoldable pub erase : ℕ → List ℕ → List ℕ
erase id [] = []
erase id (x ∷ xs) = if x == id then erase id xs else x ∷ erase id xs

-- `connection_manager::start`
unfoldable pub manager_start : ℕ → Server → Server
manager_start id s = record s {
  managed = insert id s.managed;
  store = update s.store id (start (s.store id));
}

-- `connection_manager::stop`
unfoldable pub manager_stop : ℕ → Server → Server
manager_stop id s = record s {
  managed = erase id s.managed;
  store = update s.store id (stop (s.store id));
}

-- `connection_manager::stop_all`
unfoldable pub stop_all : Server → Server
stop_all s = record s {
  store = λ j. if member j s.managed then stop (s.store j) else s.store j;
  managed = [];
}

-- `create_connection`: of the class that the server makes, `plain` or `ssl`.
unfoldable pub create_connection : Status → Kind → Server → Server
create_connection st kind s = record s {
  store = update s.store s.created (new_connection st kind);
  created = suc s.created;
}

-- The handler of `async_accept`. It starts the next accept, unless the acceptor is closed.
unfoldable pub on_accept : Status → Kind → ErrorCode → Server → Server
on_accept st kind success s =
    if not s.is_accepting then s else manager_start s.created (create_connection st kind s)
on_accept st kind _ s = s

-- The destructor of `http_server`: the acceptor is closed, and the manager's own destructor stops
-- what it has.
unfoldable pub destroy : Server → Server
destroy s = stop_all (record s { is_accepting = false })

-- What a completion handler of the connection `id` leaves.
unfoldable pub settle : ℕ → Connection × Verdict → Server → Server
settle id (c, keep) s = record s { store = update s.store id c }
settle id (c, stop_it) s = manager_stop id (record s { store = update s.store id c })
settle id (c, threw) s = record s { store = update s.store id c }

-- A server that listens, with no connection.
abbrev pub new_server : Status → Kind → Server
new_server st kind = record {
  store = λ _. new_connection st kind;
  created = 0;
  managed = [];
  is_accepting = true;
}

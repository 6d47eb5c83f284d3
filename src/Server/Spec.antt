-- ===== src/Server/Spec.antt =====
-- What a server promises, with no reads in pieces, no buffers and no set of connections: all that a
-- client has sent so far, parsed at once, decides whether it is waited for or answered.
use f.Prelude.{ℕ, suc, ◌<◌, ◌≡◌, ◌≢◌, ◌⊎◌, [], ◌++◌}
use f.Bytes.{Bytes}
use f.Http.{HttpRequest, empty_request}
use f.Parser.{State, method_start, good, bad, indeterminate, ok, parse}
use f.Reply.{Reply, bad_request, stock_reply}
use f.Connection.{Kind, plain, ssl}
use f.Reply.{Handled, replied, raised}

-- A connection that makes its handshake, that has received these bytes, that sends this reply to
-- these bytes, that is held without a reply as the handler has thrown at these bytes, or that has
-- been closed.
pub data Phase : Type 0 where
  shaking : Phase
  receiving : Bytes → Phase
  answering : Bytes → Reply → Phase
  failing : Bytes → Phase
  over : Phase

-- The bytes that are the start of a request.
abbrev pub IsIncomplete : Bytes → Type 0
IsIncomplete stream =
    (s : State) × (req : HttpRequest) × (rest : Bytes) × (parse method_start empty_request stream
      ≡ ok (s, req, indeterminate, rest))

-- The reply that is due to these bytes: the handler's to the request that they begin with, or the
-- stock one where they begin with none.
abbrev pub IsDue : (HttpRequest → Handled) → Bytes → Reply → Type 0
IsDue handler stream r =
    ((s : State) × (req : HttpRequest) × (rest : Bytes) × (parse method_start empty_request stream
        ≡ ok (s, req, good, rest))
      × (handler req ≡ replied r))
    ⊎ ((s : State) × (req : HttpRequest) × (rest : Bytes) × (parse method_start empty_request stream
          ≡ ok (s, req, bad, rest))
        × (r ≡ stock_reply bad_request))

-- The bytes begin with a request at which the handler throws.
abbrev pub Fails : (HttpRequest → Handled) → Bytes → Type 0
Fails handler stream =
    (s : State) × (req : HttpRequest) × (rest : Bytes) × (r : Reply) × (parse method_start
        empty_request stream
      ≡ ok (s, req, good, rest))
    × (handler req ≡ raised r)

-- What one connection may do.
abbrev pub Moves : (HttpRequest → Handled) → Phase → Phase → Type 0
Moves handler p over = Unit
Moves handler shaking (receiving stream) = stream ≡ []
Moves handler (receiving old) (receiving stream) =
    (bytes : Bytes) × (stream ≡ old ++ bytes) × IsIncomplete stream
Moves handler (receiving old) (answering stream r) =
    (bytes : Bytes) × (stream ≡ old ++ bytes) × IsDue handler stream r
Moves handler (receiving old) (failing stream) =
    (bytes : Bytes) × (stream ≡ old ++ bytes) × Fails handler stream
Moves handler p q = ⊥

abbrev pub first_phase : Kind → Phase
first_phase plain = receiving []
first_phase ssl = shaking

pub record View : Type 0 where
  pub count : ℕ
  pub phases : ℕ → Phase

abbrev pub new_view : View
new_view = record { count = 0; phases = λ _. over }

-- What the server may do: nothing that shows, one connection more, a move of one connection, or the
-- end of all.
pub data Act (kind : Kind) (handler : HttpRequest → Handled) (v w : View) : Type 0 where
  stay : w.count ≡ v.count → ((j : ℕ) → w.phases j ≡ v.phases j) → Act kind handler v w
  connect :
      w.count ≡ suc v.count
      → w.phases v.count ≡ first_phase kind
      → ((j : ℕ) → j ≢ v.count → w.phases j ≡ v.phases j)
      → Act kind handler v w
  move :
      (id : ℕ)
      → w.count ≡ v.count
      → id < v.count
      → Moves handler (v.phases id) (w.phases id)
      → ((j : ℕ) → j ≢ id → w.phases j ≡ v.phases j)
      → Act kind handler v w
  shut : w.count ≡ v.count → ((j : ℕ) → w.phases j ≡ over) → Act kind handler v w

pub data Run (kind : Kind) (handler : HttpRequest → Handled) (v : View) : View → Type 0 where
  start : Run kind handler v v
  then_ : {w x : View} → Run kind handler v w → Act kind handler w x → Run kind handler v x

-- ===== src/Server/Leads.antt =====
-- Completions that lead from a connection that reads to what the reads make of it.
use f.Prelude.{
  Bool-cases, inl, inr, ℕ, ◌≤◌, ◌<◌, ◌≡◌, refl, sym, ap, subst, ◌∙◌, true, false, List, [], ◌∷◌,
  length, All, ==_self,
}
use f.Bytes.{Bytes}
use f.Parser.{good, bad, indeterminate, Checked, ok, ok_injective, fault, ◌>>=◌, Parsed, parse}
use f.Reply.{Handled, replied, raised, Status}
use f.Connection.{
  RequestHandler, written, Pending, Connection, Kind, success, keep, Verdict, idle, reading,
  writing, handshaking, on_read, after_parse, handle_request, deliver, is_reading,
}
use f.Connection.Stream.{deliver_stopped, deliver_reading}
use f.Server.{Server, update, settle}
use f.Server.Step.{buffer_size, IsAlive, IsDefined, Step, read, Reach, here, next, Reach-trans}

module _ (st : Status) (kind : Kind) (handler : RequestHandler) where
  -- Steps that lead to a server where the connection `id` is `c`.
  pub record Leads (s : Server) (id : ℕ) (c : Connection) : Type 0 where
    pub end : Server
    pub steps : Reach st kind handler s end
    pub stored : end.store id ≡ c
    pub created : end.created ≡ s.created
    pub alive : IsAlive st kind handler end

  -- A read with no error does not stop the connection, whatever the parser and the handler do.
  abbrev GoesOn : Verdict → Type 0
  GoesOn v = (id : ℕ) (c : Connection) (s : Server) → settle id (c, v) s ≡ settle id (c, keep) s

  written-GoesOn : (h : Handled) (c : Connection) → GoesOn (written h c).1
  unfolding settle
  written-GoesOn (replied r) c = λ id c s. refl
  written-GoesOn (raised r) c = λ id c s. refl

  on_read-GoesOn :
      (bytes : Bytes) (c : Connection) {c' : Connection} {verdict : Verdict}
      → on_read handler success bytes c ≡ ok (c', verdict)
      → GoesOn verdict
  unfolding on_read after_parse handle_request
  on_read-GoesOn bytes c {c'} {verdict} = cases (parse c.parser c.request bytes)
    where
      cases :
          (m : Parsed)
          → (m >>= λ (s, req, result, rest).
              ok (after_parse handler result (record c { parser = s; request = req })))
            ≡ ok (c', verdict)
          → GoesOn verdict
      cases (fault e) h = cc h
      cases (ok (s, req, good, rest)) h =
          subst GoesOn (ap (λ p. p.1) (ok_injective h)) (written-GoesOn (handler req c.reply) _)
      cases (ok (s, req, bad, rest)) h =
          subst GoesOn (ap (λ p. p.1) (ok_injective h)) (λ id c s. refl)
      cases (ok (s, req, indeterminate, rest)) h =
          subst GoesOn (ap (λ p. p.1) (ok_injective h)) (λ id c s. refl)

  stopped-Leads :
      (chunks : List Bytes) (s : Server) (id : ℕ) {c : Connection}
      → IsAlive st kind handler s
      → is_reading (s.store id).pending ≡ false
      → deliver handler chunks (s.store id) ≡ ok c
      → Leads s id c
  stopped-Leads chunks s id {c} on h e =
      let same : s.store id ≡ c = cc (deliver_stopped handler chunks (s.store id) h, e) in
      record { end = s; steps = here; stored = same; created = refl; alive = on }

  read-Leads :
      (chunk : Bytes) (s : Server) (id : ℕ) {c c' : Connection} {verdict : Verdict}
      → IsAlive st kind handler s
      → id < s.created
      → length chunk ≤ buffer_size
      → (s.store id).pending ≡ reading
      → on_read handler success chunk (s.store id) ≡ ok (c', verdict)
      → ((t : Server)
          → IsAlive st kind handler t
          → t.store id ≡ c'
          → t.created ≡ s.created
          → Leads t id c)
      → Leads s id c
  unfolding settle update
  read-Leads chunk s id {c} {c'} {verdict} on lt fit reads e more =
      let kept = on_read-GoesOn chunk (s.store id) e id c' s in
      let (step, defined) =
        subst (λ u. (step : Step st kind handler s u) × IsDefined st kind handler step) kept
          (read id success chunk fit lt reads tt e, on) in
      let t = settle id (c', keep) s in
      let rest = more t on (rw ==_self) refl in
      record {
        end = rest.end;
        steps = Reach-trans st kind handler (next here step defined) rest.steps;
        stored = rest.stored;
        created = rest.created;
        alive = rest.alive;
      }

  is_reading_sound : (p : Pending) → is_reading p ≡ true → p ≡ reading
  is_reading_sound idle h = cc
  is_reading_sound handshaking h = cc
  is_reading_sound reading h = refl
  is_reading_sound writing h = cc

  -- The reads of one connection, each of which fits into the buffer.
  pub deliver-Leads :
      (chunks : List Bytes) (s : Server) (id : ℕ) {c : Connection}
      → IsAlive st kind handler s
      → id < s.created
      → All (λ chunk. length chunk ≤ buffer_size) chunks
      → deliver handler chunks (s.store id) ≡ ok c
      → Leads s id c
  deliver-Leads [] s id on lt fits e = record {
    end = s;
    steps = here;
    stored = unfold deliver in cc e;
    created = refl;
    alive = on;
  }
  deliver-Leads (chunk ∷ chunks) s id {c} on lt (fit, fits) e =
      elim (Bool-cases (is_reading (s.store id).pending)) [
        | inr stopped ↦ stopped-Leads (chunk ∷ chunks) s id on stopped e
        | inl reads ↦
            let p = is_reading_sound (s.store id).pending reads in
            round (on_read handler success chunk (s.store id)) refl p
              (sym (deliver_reading handler chunk chunks (s.store id) p) ∙ e)
              (λ t on' lt' h. deliver-Leads chunks t id on' lt' fits h)
      ]
    where
      round :
          (m : Checked (Connection × Verdict))
          → on_read handler success chunk (s.store id) ≡ m
          → (s.store id).pending ≡ reading
          → (m >>= λ (c', _). deliver handler chunks c') ≡ ok c
          → ((t : Server)
              → IsAlive st kind handler t
              → id < t.created
              → deliver handler chunks (t.store id) ≡ ok c
              → Leads t id c)
          → Leads s id c
      round (fault f) eq p h ih = cc h
      round (ok (c', verdict)) eq p h ih =
          read-Leads chunk s id on lt fit p eq
            (λ t on' stored created. ih t on' (subst (λ n. id < n) (sym created) lt) (rw stored h))

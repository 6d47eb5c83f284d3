-- ===== src/Server/Refines.antt =====
-- The server keeps to what is promised of it: its steps are those of the specification.
use f.Prelude.{
  ℕ, suc, ◌<◌, ◌≡◌, ◌≢◌, ◌⊎◌, inl, inr, refl, sym, ap, subst, ◌∙◌, ◌==◌, ==_self, if◌then◌else◌,
  arith, Bool-cases,
}
use f.Reply.{Status}
use f.Connection.{
  RequestHandler, Connection, Kind, ErrorCode, success, operation_aborted, failure, Verdict, keep,
  stop_it, threw,
}
use f.Server.{
  Server, update, manager_start, manager_stop, stop_all, create_connection, on_accept, destroy,
  settle, new_server,
}
use f.Server.Invariant.{Inv, Reach-Inv}
use f.Server.Spec.{
  Phase, over, Moves, first_phase, View, new_view, Act, stay, connect, move, shut, Run, then_,
}
use f.Server.Spec
use f.Server.Step.{Step, accept, handshake, read, write, close, Reach, here, next}
use f.Server.Turns.{
  Shows, outcome, Turns, spec_handler, ReadTurns, on_handshake-Turns, on_write-Turns, on_read-Turns,
  first_phase-Shows,
}

abbrev set_phase : (ℕ → Phase) → ℕ → Phase → ℕ → Phase
set_phase phases id p j = if id == j then p else phases j

set_phase_self : (phases : ℕ → Phase) (id : ℕ) (p : Phase) → set_phase phases id p id ≡ p
set_phase_self phases id p = rw ==_self

set_phase_other :
    (phases : ℕ → Phase) (id : ℕ) (p : Phase) (j : ℕ) → j ≢ id → set_phase phases id p j ≡ phases j
set_phase_other phases id p j ne = ground arith

settle-store :
    (id : ℕ) (result : Connection × Verdict) (s : Server) (j : ℕ)
    → (settle id result s).store j ≡ (if id == j then outcome result else s.store j)
unfolding settle manager_stop update
settle-store id (c, keep) s j = refl
settle-store id (c, stop_it) s j = ground arith
settle-store id (c, threw) s j = refl

pub settle-created :
    (id : ℕ) (result : Connection × Verdict) (s : Server) → (settle id result s).created ≡ s.created
unfolding settle manager_stop
settle-created id (c, keep) s = refl
settle-created id (c, stop_it) s = refl
settle-created id (c, threw) s = refl

module _ (st : Status) (kind : Kind) (handler : RequestHandler) where
  -- Every connection of the server is in the phase that the view has for it.
  pub record IsViewed (s : Server) (v : View) : Type 0 where
    pub same_count : v.count ≡ s.created
    pub in_phase : (j : ℕ) → j < s.created → Shows st (s.store j) (v.phases j)

  abbrev Acts : View → Server → Type 0
  Acts v s = (w : View) × Act kind (spec_handler st handler) v w × IsViewed s w

  settle-Shows :
      (id : ℕ) (result : Connection × Verdict) (s : Server) (v : View) (q : Phase)
      → IsViewed s v
      → Shows st (outcome result) q
      → IsViewed (settle id result s) (record v { phases = set_phase v.phases id q })
  settle-Shows id result s v q h k = record {
    same_count = h.same_count ∙ sym (settle-created id result s);
    in_phase = λ j lt. elim (Bool-cases (id == j)) [
      | inl same ↦ rw (settle-store id result s j, same) k
      | inr other ↦
          rw (settle-store id result s j, other)
            (h.in_phase j (subst (λ n. j < n) (settle-created id result s) lt))
    ];
  }

  -- A completion of one connection.
  settle-Acts :
      (id : ℕ) (result : Connection × Verdict) (s : Server) (v : View)
      → id < s.created
      → IsViewed s v
      → Turns st handler (v.phases id) (outcome result)
      → Acts v (settle id result s)
  settle-Acts id result s v lt h (q, how, k) =
      (record v { phases = set_phase v.phases id q }, act how, settle-Shows id result s v q h k)
    where
      act :
          (q ≡ v.phases id) ⊎ Moves (spec_handler st handler) (v.phases id) q
          → Act kind (spec_handler st handler) v (record v { phases = set_phase v.phases id q })
      act (inl same) = stay refl (λ j. ground arith)
      act (inr moves) =
          move id refl (omega (arith, lt, h.same_count)) (rw (set_phase_self v.phases id q) moves)
            (set_phase_other v.phases id q)

  -- A connection more.
  started-Acts :
      (s : Server) (v : View)
      → IsViewed s v
      → Acts v (manager_start s.created (create_connection st kind s))
  unfolding manager_start create_connection update
  started-Acts s v h = (
    record { count = suc v.count; phases = set_phase v.phases v.count (first_phase kind) },
    connect refl (set_phase_self v.phases v.count (first_phase kind))
        (set_phase_other v.phases v.count (first_phase kind)),
    record {
      same_count = ap suc h.same_count;
      in_phase = λ j lt. rw h.same_count (elim (Bool-cases (s.created == j)) [
        | inl same ↦ rw (same, ==_self) (first_phase-Shows st handler kind)
        | inr other ↦ rw other (h.in_phase j (ground arith))
      ]);
    },
  )

  accept-Acts :
      (ec : ErrorCode) (s : Server) (v : View) → IsViewed s v → Acts v (on_accept st kind ec s)
  unfolding on_accept
  accept-Acts success s v h = elim (Bool-cases s.is_accepting) [
    | inl on ↦ simp on (started-Acts s v h)
    | inr off ↦ simp off (v, stay refl (λ j. refl), h)
  ]
  accept-Acts operation_aborted s v h = (v, stay refl (λ j. refl), h)
  accept-Acts failure s v h = (v, stay refl (λ j. refl), h)

  destroy-Acts : (s : Server) (v : View) → Inv handler s → IsViewed s v → Acts v (destroy s)
  unfolding destroy stop_all
  destroy-Acts s v i h = (
    record v { phases = λ _. over },
    shut refl (λ j. refl),
    record { same_count = h.same_count; in_phase = λ j lt. ground (arith, i.open_iff_managed j) },
  )

  Step-Acts :
      {s t : Server} (v : View) → Inv handler s → IsViewed s v → Step st kind handler s t → Acts v t
  Step-Acts {s = s} v i h (accept ec) = accept-Acts ec s v h
  Step-Acts {s = s} v i h (handshake id ec lt p _) =
      settle-Acts id _ s v lt h
        (on_handshake-Turns st handler ec (s.store id) (v.phases id) p (h.in_phase id lt))
  Step-Acts {s = s} v i h (read id ec bytes _ lt p m e) = settle-Acts id _ s v lt h (
      subst (ReadTurns st handler (v.phases id)) e
        (on_read-Turns st handler ec bytes (s.store id) (v.phases id) p m (h.in_phase id lt)))
  Step-Acts {s = s} v i h (write id ec lt p m) =
      settle-Acts id _ s v lt h (on_write-Turns st handler ec (s.store id) (v.phases id) p m)
  Step-Acts {s = s} v i h close = destroy-Acts s v i h

-- Whatever completions Asio runs, in whatever order, on a server with any handler, one that throws
-- included: there is a run of the specification that ends with as many connections, each in the
-- phase that shows its state and what it has received and sent.
pub Reach-Run :
    (st : Status) (kind : Kind) (handler : RequestHandler) {s : Server}
    → Reach st kind handler (new_server st kind) s
    → (v : View) × Run kind (spec_handler st handler) new_view v × IsViewed st kind handler s v
Reach-Run st kind handler here =
    (new_view, Spec.start, record { same_count = refl; in_phase = λ j lt. elim lt [ ] })
Reach-Run st kind handler (next r step _) =
    let (v, run, h) = Reach-Run st kind handler r in
    let (w, act, k) = Step-Acts st kind handler v (Reach-Inv st kind handler r) h step in
    (w, then_ run act, k)

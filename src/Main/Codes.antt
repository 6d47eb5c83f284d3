-- ===== src/Main/Codes.antt =====
-- The exit code of the program.
use f.Prelude.{ℕ, ◌<◌, ◌≡◌, ◌↔◌, refl, sym, ap, subst, ◌∙◌, Option, none, some, List}
use f.Bytes.{Bytes}
use f.Json.{Result, ok, throw, ◌>>=◌, ok_injective, JsonApi}
use f.Listen.{AsioApi}
use f.Main.{Instance, Exit, returned, run_loop, start_servers, run_servers}
use f.Main.Loop.{Runs, run_loop_iff}
use f.Router.{ResourceEntry}

pub returned_iff :
    {W : Type 0} (m : Option (ℕ × W)) → (returned m ≡ some 0) ↔ ((r : ℕ × W) × (m ≡ some r))
returned_iff none = (λ e. cc e, λ (r, e). cc e)
returned_iff (some r) = (λ e. (r, refl), λ _. refl)

module _ (json : JsonApi) (asio : AsioApi) (sort : List ResourceEntry → List ResourceEntry)
    (parse_file : Bytes → Option (Result (json.Json)))
    (add_signals : asio.World → Result (asio.World))
    (run : List (Instance (json.Json)) → asio.World → Exit × asio.World) where
  open json use {Json}
  open asio use {World}

  -- The servers are built and the signals registered, and of the runs that follow a number throw and
  -- the next one finishes, with less than `fuel` that throw.
  abbrev pub Finishes : Result (List (Instance Json) × World) → ℕ → Type 0
  Finishes built fuel =
      (servers : List (Instance Json)) × (w : World) × (w' : World) × (n : ℕ) × (w'' : World)
      × (built ≡ ok (servers, w))
      × (add_signals w ≡ ok w')
      × Runs (run servers) w' n w''
      × (n < fuel)

  -- Behind `serve` or `config`, the program returns 0 exactly where the servers are built, the
  -- signals are registered, and a run of the servers finishes behind any number of runs that throw:
  -- an exception of a run never ends the program. With fuel for these runs, `run_servers` gives the
  -- code.
  pub run_servers_iff :
      (built : Result (List (Instance Json) × World)) (fuel : ℕ)
      → (run_servers json asio sort parse_file add_signals run fuel
            (start_servers json asio sort parse_file add_signals run built)
          ≡ some 0)
        ↔ Finishes built fuel
  unfolding run_servers start_servers
  run_servers_iff (throw f) fuel = (λ e. cc e, λ (_, _, _, _, _, e, _, _, _). cc e)
  run_servers_iff (ok (servers, w)) fuel = registered (add_signals w) refl
    where
      registered :
          (m : Result World)
          → add_signals w ≡ m
          → (run_servers json asio sort parse_file add_signals run fuel
                (m >>= λ w'. ok (servers, w'))
              ≡ some 0)
            ↔ Finishes (ok (servers, w)) fuel
      registered (throw f) fails = (
        λ e. cc e,
        λ (_, _, _, _, _, built, signals, _, _).
            let same = ap (λ r. r.1) (ok_injective built) in
            cc (fails, signals, ap add_signals same),
      )
      registered (ok w₁) signals = (
        λ e.
            let ((n, w₂), loops) = (returned_iff (run_loop (run servers) fuel 0 w₁)).0 e in
            let (runs, le) = (run_loop_iff (run servers) fuel n w₁ w₂).0 loops in
            (servers, w, w₁, n, w₂, refl, signals, runs, le),
        λ (servers', w', w₁', n, w₂, built, signals', runs, le).
            let same = ok_injective built in
            let same₁ : w₁' ≡ w₁ =
              ok_injective (sym signals' ∙ sym (ap (λ r. add_signals r.1) same) ∙ signals) in
            (returned_iff (run_loop (run servers) fuel 0 w₁)).1 (
              (n, w₂),
              (run_loop_iff (run servers) fuel n w₁ w₂).1 (
                subst (λ v. Runs (run servers) v n w₂) same₁
                    (subst (λ r. Runs (run r.0) w₁' n w₂) (sym same) runs),
                le,
              ),
            ),
      )

-- ===== src/Examples/Programs.antt =====
-- The exit codes of the programs.
use f.Prelude.{ℕ, ◌<◌, ◌≡◌, ◌↔◌, refl, sym, subst, some, List}
use f.Json.{Result, ok, throw, ok_injective}
use f.Listen.{AsioApi}
use f.FileSystem.{FileSystem}
use f.Router.{ResourceEntry}
use f.Main.{Exit, run_loop}
use f.Main.Codes.{returned_iff}
use f.Main.Loop.{Runs, run_loop_iff}
use f.Examples.{
  Instance, start_rest, start_complete, start_static, start_https_static, run_started, rest_main,
  complete_main, static_main, https_static_main,
}

module _ (asio : AsioApi) (fs : FileSystem) (sort : List ResourceEntry → List ResourceEntry)
    (run : List Instance → asio.World → Exit × asio.World) where
  open asio use {World}

  -- The servers start, and of the runs that follow a number throw and the next one finishes, with
  -- less than `fuel` that throw.
  abbrev pub Finishes : Result (List Instance × World) → ℕ → Type 0
  Finishes started fuel =
      (servers : List Instance) × (w : World) × (n : ℕ) × (w' : World) × (started ≡ ok (servers, w))
      × Runs (run servers) w n w'
      × (n < fuel)

  run_started_iff :
      (started : Result (List Instance × World)) (fuel : ℕ)
      → (run_started asio fs sort run fuel started ≡ some 0) ↔ Finishes started fuel
  unfolding run_started
  run_started_iff (throw f) fuel = (λ e. cc e, λ (_, _, _, _, e, _, _). cc e)
  run_started_iff (ok (servers, w)) fuel = (
    λ e.
        let ((n, w'), loops) = (returned_iff (run_loop (run servers) fuel 0 w)).0 e in
        let (runs, le) = (run_loop_iff (run servers) fuel n w w').0 loops in
        (servers, w, n, w', refl, runs, le),
    λ (servers', w₁, n, w', built, runs, le). (returned_iff (run_loop (run servers) fuel 0 w)).1 (
      (n, w'),
      (run_loop_iff (run servers) fuel n w w').1
          (subst (λ r. Runs (run r.0) r.1 n w') (sym (ok_injective built)) runs, le),
    ),
  )

  -- Each of the four programs returns 0 exactly where its servers start, and a run of them finishes
  -- behind any number of runs that throw: an exception of a run never ends the program.
  pub mains_iff :
      (fuel : ℕ) (w : World)
      → ((rest_main asio fs sort run fuel w ≡ some 0) ↔ Finishes (start_rest asio fs sort w) fuel)
        × ((complete_main asio fs sort run fuel w ≡ some 0)
            ↔ Finishes (start_complete asio fs sort w) fuel)
        × ((static_main asio fs sort run fuel w ≡ some 0)
            ↔ Finishes (start_static asio fs sort w) fuel)
        × ((https_static_main asio fs sort run fuel w ≡ some 0)
            ↔ Finishes (start_https_static asio fs sort w) fuel)
  unfolding rest_main complete_main static_main https_static_main
  mains_iff fuel w = (
    run_started_iff (start_rest asio fs sort w) fuel,
    run_started_iff (start_complete asio fs sort w) fuel,
    run_started_iff (start_static asio fs sort w) fuel,
    run_started_iff (start_https_static asio fs sort w) fuel,
  )

-- ===== src/Main/Loop.antt =====
-- The loop of main, which reports an exception and runs the servers again.
use f.Prelude.{ℕ, zero, suc, ◌+◌, ◌<◌, ◌≡◌, ◌↔◌, refl, sym, ◌∙◌, ap, subst, Option, some, arith}
use f.Main.{Exit, finished, threw, run_loop}

some_injective {ℓ} : {A : Type ℓ} {a b : A} → ◌≡◌ {A = Option A} (some a) (some b) → a ≡ b
some_injective e = cc e

module _ {W : Type 0} (run : W → Exit × W) where
  -- `n` runs that throw, then one that finishes.
  pub data Runs : W → ℕ → W → Type 0 where
    last : {w w' : W} → run w ≡ (finished, w') → Runs w 0 w'
    again : {w w' w'' : W} {n : ℕ} → run w ≡ (threw, w') → Runs w' n w'' → Runs w (suc n) w''

  abbrev after : ℕ → ℕ → Exit × W → Option (ℕ × W)
  after fuel reported r = elim r.0 [
    | finished ↦ some (reported, r.1)
    | threw ↦ run_loop run fuel (reported + 1) r.1
  ]

  -- A run that finishes ends the loop, and one that throws is counted.
  run_loop_finished :
      {w w' : W} (fuel reported : ℕ)
      → run w ≡ (finished, w')
      → run_loop run (suc fuel) reported w ≡ some (reported, w')
  unfolding run_loop
  run_loop_finished fuel reported e = ap (after fuel reported) e

  run_loop_threw :
      {w w' : W} (fuel reported : ℕ)
      → run w ≡ (threw, w')
      → run_loop run (suc fuel) reported w ≡ run_loop run fuel (reported + 1) w'
  unfolding run_loop
  run_loop_threw fuel reported e = ap (after fuel reported) e

  -- With fuel for the runs, the loop makes them all, and counts each that throws.
  run_loop-Runs :
      (fuel reported : ℕ) {w w' : W} {n : ℕ}
      → Runs w n w'
      → n < fuel
      → run_loop run fuel reported w ≡ some (reported + n, w')
  run_loop-Runs zero reported runs lt = absurd (omega arith)
  run_loop-Runs (suc fuel) reported (last {w' = w'} e) lt =
      run_loop_finished fuel reported e ∙ ap (λ k. some (k, w')) (omega arith)
  run_loop-Runs (suc fuel) reported (again {w'' = w''} {n = n} e runs) lt =
      run_loop_threw fuel reported e
      ∙ run_loop-Runs fuel (reported + 1) runs (omega arith)
      ∙ ap (λ k. some (k, w'')) (omega arith)

  -- What the loop gives is what its runs come to.
  run_loop_sound :
      (fuel reported : ℕ) (w : W) {n : ℕ} {w' : W}
      → run_loop run fuel reported w ≡ some (n, w')
      → (k : ℕ) × (n ≡ reported + k) × Runs w k w' × (k < fuel)
  run_loop_sound zero reported w e = unfold run_loop in cc e
  run_loop_sound (suc fuel) reported w {n} {w'} e =
      round (run w) refl (λ w₁ k. run_loop_sound fuel (reported + 1) w₁ k)
    where
      round :
          (r : Exit × W)
          → run w ≡ r
          → ((w₁ : W)
              → run_loop run fuel (reported + 1) w₁ ≡ some (n, w')
              → (k : ℕ) × (n ≡ reported + 1 + k) × Runs w₁ k w' × (k < fuel))
          → (k : ℕ) × (n ≡ reported + k) × Runs w k w' × (k < suc fuel)
      round (finished, w₁) runs ih =
          let same = some_injective (sym (run_loop_finished fuel reported runs) ∙ e) in
          (
            0,
            sym (ap (λ r. r.0) same) ∙ omega arith,
            subst (λ r. Runs w 0 r.1) same (last runs),
            omega arith,
          )
      round (threw, w₁) runs ih =
          let (k, count, later, le) = ih w₁ (sym (run_loop_threw fuel reported runs) ∙ e) in
          (suc k, omega (arith, count), again runs later, omega (arith, le))

  -- The loop ends with `n` exceptions reported exactly where `n` runs throw, the next one finishes,
  -- and there is fuel for all of these.
  pub run_loop_iff :
      (fuel n : ℕ) (w w' : W) → (run_loop run fuel 0 w ≡ some (n, w')) ↔ (Runs w n w' × (n < fuel))
  run_loop_iff fuel n w w' = (
    λ e.
        let (k, count, runs, le) = run_loop_sound fuel 0 w e in
        let same : k ≡ n = omega (arith, count) in
        (subst (λ m. Runs w m w') same runs, omega (arith, le)),
    λ (runs, le). run_loop-Runs fuel 0 runs le ∙ ap (λ k. some (k, w')) (omega arith),
  )

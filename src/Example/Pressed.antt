-- ===== src/Example/Pressed.antt =====
-- example/main.go: the buttons of the window.
use prox.Base.{
  zero, suc, ◌≡◌, refl, ap, sym, ◌∙◌, Bool, not, List, [], ◌∷◌, ◌++◌, ℤ, pos, negsuc, add64, sub64,
  ◌≤ℤ◌, add64_up, sub64_down, eq_of_parts, arith, pos_part, two63, ◌≤◌, ◌<◌, ◌+◌,
}
use prox.Text.{Bytes}
use prox.Scaler.{Ants, set_baseline}
use prox.Scaler.Bounds.{IsTunable, InStep}
use prox.Engine.{Engine}
use prox.Engine.Options.{is_running, get_max_workers, set_max_workers, tune_workers}
use prox.Engine.Options.Workers.{set_max_workers_eq}
use prox.Conductor.{pause_engine, resume_engine, start_daemons}
use prox.Example.{buttons}

-- Whether the engine runs, after presses that the second button of each kind turns over.
abbrev pub turned : List ℤ → Bool → Bool
turned [] running = running
turned (pos (suc zero) ∷ rest) running = turned rest (not running)
turned (_ ∷ rest) running = turned rest running

turned_step :
    (index : ℤ) (rest : List ℤ) (b : Bool)
    → turned (index ∷ rest) b ≡ turned rest (turned (index ∷ []) b)
turned_step (pos zero) rest b = refl
turned_step (pos (suc zero)) rest b = refl
turned_step (pos (suc (suc n))) rest b = refl
turned_step (negsuc n) rest b = refl

module _ {P L M : Type 0} ⦃ants : Ants P⦄ where
  -- The presses of the buttons while the app runs, and the errors that were printed.
  unfoldable pub press_all : List ℤ → Engine P L M → Engine P L M × List Bytes
  unfolding buttons
  press_all [] swamp = (swamp, [])
  press_all (index ∷ rest) swamp =
      let r = buttons index swamp in
      let (last, said) = press_all rest r.engine in (last, r.said ++ said)

  pause_button :
      (swamp : Engine P L M)
      → let r = buttons (pos (suc zero)) swamp in
        (r.said ≡ []) × (is_running r.engine ≡ not (is_running swamp))
  unfolding buttons pause_engine resume_engine start_daemons
  pause_button swamp = (ground arith, ground arith)

  resized_runs :
      (num : ℤ) (swamp : Engine P L M) → is_running (set_max_workers num swamp) ≡ is_running swamp
  unfolding set_max_workers tune_workers
  resized_runs num swamp = ground arith

  -- A button turns the engine over or leaves its status.
  button_turns :
      (index : ℤ) (swamp : Engine P L M)
      → let r = buttons index swamp in
        (r.said ≡ []) × (is_running r.engine ≡ turned (index ∷ []) (is_running swamp))
  unfolding buttons
  button_turns (pos zero) swamp = (refl, refl)
  button_turns (pos (suc zero)) swamp = pause_button swamp
  button_turns (pos (suc (suc zero))) swamp =
      (refl, resized_runs (add64 (get_max_workers swamp) (pos 1)) swamp)
  button_turns (pos (suc (suc (suc zero)))) swamp =
      (refl, resized_runs (sub64 (get_max_workers swamp) (pos 1)) swamp)
  button_turns (pos (suc (suc (suc (suc n))))) swamp = (refl, refl)
  button_turns (negsuc n) swamp = (refl, refl)

  -- Over any presses of the buttons, no error is printed, and the engine runs exactly if it did before, or
  -- exactly if it did not, as the Pause button was pressed an even or an odd number of times.
  pub press_all-turned :
      (l : List ℤ) (swamp : Engine P L M)
      → let (last, said) = press_all l swamp in
        (said ≡ []) × (is_running last ≡ turned l (is_running swamp))
  unfolding press_all
  press_all-turned [] swamp = (refl, refl)
  press_all-turned (index ∷ rest) swamp =
      let r = buttons index swamp in
      let (quiet, now) = button_turns index swamp in
      let (later, last) = press_all-turned rest r.engine in
      (
        ap (λ s. s ++ (press_all rest r.engine).1) quiet ∙ later,
        last ∙ ap (turned rest) now ∙ sym (turned_step index rest (is_running swamp)),
      )

  -- From a scaler and a pool in step, of at least two workers and none added by the scaler, and with one
  -- more in range: the button for one worker more and then the one for one less give back the scaler and
  -- the capacity of the pool.
  pub press_all-undone :
      (tunable : IsTunable ants) (swamp : Engine P L M)
      → InStep tunable swamp.scaler swamp.pool
      → swamp.scaler.scale_mod ≡ pos 0
      → 2 ≤ pos_part (ants.cap swamp.pool)
      → pos_part (ants.cap swamp.pool) + 1 < two63
      → let (last, said) = press_all (pos 2 ∷ pos 3 ∷ []) swamp in
        (last.scaler ≡ swamp.scaler) × (ants.cap last.pool ≡ ants.cap swamp.pool)
  unfolding press_all buttons tune_workers set_baseline
  press_all-undone tunable swamp v none_added two room =
      let cap : ℤ = ants.cap swamp.pool in
      let more : ℤ = add64 cap (pos 1) in
      let f : Engine P L M = tune_workers more swamp in
      let less : ℤ = sub64 (ants.cap f.pool) (pos 1) in
      let (up, natural) = add64_up cap v.cap_nonneg room in
      let grown : ants.cap f.pool ≡ more = tunable.cap-tune swamp.pool more (omega arith) in
      let (down, floor) =
        sub64_down (ants.cap f.pool) (omega (arith, ap pos_part grown))
          (omega (arith, ap pos_part grown)) in
      let back : less ≡ cap =
        eq_of_parts less cap (omega (arith, ap pos_part grown, v.cap_nonneg, down, floor, up)) in
      let level : cap ≡ swamp.scaler.baseline =
        eq_of_parts cap swamp.scaler.baseline
          (omega (arith, ap pos_part none_added, v.in_step, v.cap_nonneg, v.baseline_nonneg)) in
      let large : pos 2 ≤ℤ less = omega (arith, ap pos_part back, floor) in
      let twice : (press_all (pos 2 ∷ pos 3 ∷ []) swamp).0 ≡ tune_workers less f =
        ap (λ g. set_max_workers (sub64 (ants.cap g.pool) (pos 1)) g)
          (set_max_workers_eq tunable more swamp (omega arith))
        ∙ set_max_workers_eq tunable less f large in
      (
        ap (λ e. e.scaler) twice ∙ ap (set_baseline swamp.scaler) (back ∙ level),
        ap (λ e. ants.cap e.pool) twice ∙ tunable.cap-tune f.pool less (omega arith) ∙ back,
      )

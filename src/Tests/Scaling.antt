-- ===== src/Tests/Scaling.antt =====
-- The auto scaler, with the pool of scaler_test.go: five workers, a baseline of five, at most 100
-- more, and a threshold of 15.
use prox.Base.{
  none, ◌≡◌, ◌↔◌, refl, Bool, true, List, [], ◌∷◌, none, some, ℤ, pos, arith, All, pos_part, ◌+◌,
  ◌<ℤ◌, sub64, wrap64, ◌-ℤ◌,
}
use prox.Scaler.{AutoScaler, idle, disabled, scaling_up}
use prox.Scaler.Bounds.{InStep, calls, calls-InStep}
use prox.Engine.{state_running}
use prox.Engine.Options.{get_recycling_status, set_max_workers}
use prox.Engine.Options.Workers.{AsksForLess, set_max_workers-InStep, set_max_workers_undershoots}
use prox.Spawner.{spawner_rounds}
use prox.Spawner.Turns.{turns_lem}
use prox.Scale.{scale}
use prox.Scale.Ticks.{Ticked, scale-Ticked}
use prox.Tests.World.{
  World, start_world, seen_limiter, table_plot, capacity_ants, capacity_ants-IsTunable,
}

abbrev test_scaler : AutoScaler
test_scaler = record {
  max = pos 100;
  state = idle;
  baseline = pos 5;
  scale_mod = pos 0;
  threshold = pos 15;
}

abbrev raised_scaler : AutoScaler
raised_scaler = record {
  max = pos 100;
  state = scaling_up;
  baseline = pos 5;
  scale_mod = pos 2;
  threshold = pos 15;
}

abbrev stopped_scaler : AutoScaler
stopped_scaler = record {
  max = pos 100;
  state = disabled;
  baseline = pos 5;
  scale_mod = pos 2;
  threshold = pos 15;
}

test_scaler-InStep : InStep capacity_ants-IsTunable test_scaler (pos 5)
test_scaler-InStep = record {
  mod_nonneg = refl;
  baseline_nonneg = refl;
  baseline_pos = omega arith;
  cap_nonneg = refl;
  in_step = refl;
  below_max = omega arith;
  room = omega arith;
}

stopped_scaler-InStep : InStep capacity_ants-IsTunable stopped_scaler (pos 7)
stopped_scaler-InStep = record {
  mod_nonneg = refl;
  baseline_nonneg = refl;
  baseline_pos = omega arith;
  cap_nonneg = refl;
  in_step = refl;
  below_max = omega arith;
  room = omega arith;
}

abbrev test_calls : List (ℤ × ℤ)
test_calls = (pos 20, pos 10) ∷ (pos 20, pos 15) ∷ []

calls-InStep_example :
    (r : AutoScaler × ℤ) × (calls capacity_ants-IsTunable test_calls test_scaler (pos 5) ≡ some r)
    × InStep capacity_ants-IsTunable r.0 r.1
calls-InStep_example =
    calls-InStep capacity_ants-IsTunable test_calls test_scaler (pos 5) test_scaler-InStep

-- A world whose scaler has added two workers to its five.
abbrev raised_world : World
raised_world = record start_world { scaler = raised_scaler; pool = pos 7 }

raised_world-InStep : InStep capacity_ants-IsTunable raised_world.scaler raised_world.pool
raised_world-InStep = ground arith

set_max_workers-InStep_example :
    InStep capacity_ants-IsTunable
      (set_max_workers (pos 3) raised_world).scaler
      (set_max_workers (pos 3) raised_world).pool
    ↔ (raised_world.scaler.scale_mod ≡ pos 0)
set_max_workers-InStep_example =
    set_max_workers-InStep capacity_ants-IsTunable (pos 3) raised_world raised_world-InStep
      (omega arith) (omega arith)

abbrev idle_calls : List (ℤ × ℤ)
idle_calls = (pos 60, pos 10) ∷ (pos 60, pos 15) ∷ []

asks_for_less : All (AsksForLess (pos 15)) idle_calls
unfolding sub64 wrap64 ◌-ℤ◌
asks_for_less = ((omega arith, omega arith), ((omega arith, omega arith), tt))

set_max_workers_undershoots_example :
    (r : AutoScaler × ℤ) × (calls capacity_ants-IsTunable idle_calls
        (set_max_workers (pos 3) raised_world).scaler
        (set_max_workers (pos 3) raised_world).pool
      ≡ some r)
    × (r.0.baseline ≡ pos 3)
    × (pos_part r.1 + 2 ≡ 3)
set_max_workers_undershoots_example =
    set_max_workers_undershoots capacity_ants-IsTunable (pos 3) raised_world idle_calls
      raised_world-InStep (λ e. cc) (omega arith) (omega arith) (omega arith) (omega arith)
      asks_for_less

gap_of_ten : sub64 (pos 20) (pos 10) ≡ pos 10
unfolding sub64 wrap64 ◌-ℤ◌
gap_of_ten = refl

gap_of_twenty : pos 15 <ℤ sub64 (pos 20) (pos 0)
unfolding sub64 wrap64 ◌-ℤ◌
gap_of_twenty = omega arith

-- An engine whose timer has ticked.
abbrev ticked_world : World
ticked_world = record start_world { scaler = test_scaler; pool = pos 5; scale_tick = true }

scale-Ticked_example :
    (r : World × Bool) × (scale 10 ticked_world ≡ some r)
    × Ticked capacity_ants-IsTunable ticked_world r.0
scale-Ticked_example = scale-Ticked capacity_ants-IsTunable 10 ticked_world test_scaler-InStep

-- An engine that runs, with two proxies pending.
abbrev running_world : World
running_world = record start_world {
  status = state_running;
  pending = 4 ∷ 7 ∷ [];
  scaler = test_scaler;
  pool = pos 5;
}

running_world_recycles : get_recycling_status running_world ≡ true
unfolding start_world
running_world_recycles = refl

turns_lem_example :
    (f : World) × (spawner_rounds (λ l. l) (λ now. none) (1 ∷ 2 ∷ []) running_world
      ≡ some (f, some 4 ∷ some 7 ∷ []))
    × (f.pending ≡ 4 ∷ 7 ∷ [])
turns_lem_example =
    turns_lem (λ l. l) (λ now. none) capacity_ants-IsTunable (1 ∷ 2 ∷ []) (4 ∷ 7 ∷ []) []
      running_world test_scaler-InStep refl running_world_recycles refl refl

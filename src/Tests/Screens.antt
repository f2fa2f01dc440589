-- ===== src/Tests/Screens.antt =====
-- The example program.
use prox.Base.{◌≡◌, ◌++◌, refl, List, [], ◌∷◌, none, pos, arith, add64, wrap64, ◌+ℤ◌}
use prox.Text.{Bytes, codes}
use prox.Engine.{def_opt, engine_with}
use prox.Load.{contents}
use prox.Example.{boot}
use prox.Example.Started.{Booted, boot-Booted}
use prox.Example.Pressed.{press_all, press_all-undone}
use prox.Example.Window.{
  Window, Event, opened, prints, printfs, draws, print, draw, happens, messages, latest,
  happens-ticked,
}
use prox.Tests.World.{capacity_ants, capacity_ants-IsTunable, seen_limiter, table_plot}
use prox.Tests.Runs.{open_internet, as_is, quiet_debug, new_world}

-- A file of one line.
boot-Booted_example :
    Booted as_is
      (contents (codes "a:1") none)
      new_world
      (boot (contents (codes "a:1") none) new_world)
boot-Booted_example = boot-Booted as_is 0 quiet_debug (pos 20) (contents (codes "a:1") none)

press_all-undone_example :
    let (last, said) = press_all (pos 2 ∷ pos 3 ∷ []) new_world in
    (last.scaler ≡ new_world.scaler) × (last.pool ≡ new_world.pool)
unfolding engine_with def_opt add64 wrap64 ◌+ℤ◌
press_all-undone_example =
    press_all-undone capacity_ants-IsTunable new_world
      (record {
        mod_nonneg = refl;
        baseline_nonneg = refl;
        baseline_pos = omega arith;
        cap_nonneg = refl;
        in_step = refl;
        below_max = omega arith;
        room = omega arith;
      })
      refl (omega arith) (omega arith)

abbrev plain : Bytes → Bytes
plain message = message

abbrev open_window : Window
open_window = opened plain

-- A message is printed and drawn, and the next one is waiting.
abbrev some_events : List Event
some_events = prints (codes "one") ∷ draws plain ∷ printfs (codes "two") ∷ prints [] ∷ []

happens-ticked_example :
    (draw plain (print [] (happens some_events open_window))).shown
    ≡ plain (latest (open_window.queued ++ messages some_events) open_window.last)
unfolding opened
happens-ticked_example = happens-ticked some_events open_window plain refl

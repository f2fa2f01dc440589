-- ===== src/Conductor.antt =====
-- conductor.go: starting, pausing, resuming and closing an engine. The number of job spawners that a
-- call starts is part of its result, since they run as goroutines.
pub mod Lifecycle
pub mod Connections
use prox.Base.{ℕ, zero, suc, ◌+◌, Bool, true, false, not, List, [], ◌∷◌, if◌then◌else◌}
use prox.Debug.{simple_string, dbg_print, printf}
use prox.Engine.{Engine, EngineState, state_running, state_paused, state_new}
use prox.Engine.Options.{is_running}

-- What a call leaves: the engine, the job spawners it started, and whether it returned an error.
pub record Conducted (P L M : Type 0) : Type 0 where
  pub engine : Engine P L M
  pub spawned : ℕ
  pub failed : Bool

abbrev pub is_new_state : EngineState → Bool
is_new_state state_new = true
is_new_state _ = false

-- The methods.
pub data Command : Type 0 where
  start pause resume close : Command

module _ {P L M : Type 0} where
  unfoldable pub start_daemons : Engine P L M → Conducted P L M
  start_daemons e = record {
    engine = record e { status = state_running; debug = printf "prox5 started" [] e.debug };
    spawned = 1;
    failed = false;
  }

  unfoldable pub resume_engine : Engine P L M → Conducted P L M
  unfolding start_daemons
  resume_engine e =
      if is_running e then record { engine = e; spawned = 0; failed = true } else start_daemons e

  unfoldable pub start_engine : Engine P L M → Conducted P L M
  unfolding start_daemons resume_engine
  start_engine e =
      if not (is_new_state e.status)
      then resume_engine (record e {
        debug = printf "proxy pool has been started before, resuming instead" [] e.debug;
      })
      else start_daemons (record e { debug = printf "starting prox5" [] e.debug })

  unfoldable pub pause_engine : Engine P L M → Conducted P L M
  pause_engine e =
      if not (is_running e) then record { engine = e; spawned = 0; failed = true } else record {
        engine = record e {
          debug = dbg_print (simple_string "pausing proxy pool") e.debug;
          status = state_paused;
        };
        spawned = 0;
        failed = false;
      }

  unfoldable pub close_engine : Engine P L M → Conducted P L M
  unfolding pause_engine
  close_engine e = pause_engine (record e { ctx_done = true })

  abbrev pub conduct : Command → Engine P L M → Conducted P L M
  conduct start e = start_engine e
  conduct pause e = pause_engine e
  conduct resume e = resume_engine e
  conduct close e = close_engine e

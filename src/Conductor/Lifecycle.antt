-- ===== src/Conductor/Lifecycle.antt =====
-- The life of an engine over a sequence of calls.
use prox.Base.{ℕ, ◌+◌, ◌≡◌, Bool, true, false, not, ◌||◌, List, [], ◌∷◌, arith, if◌then◌else◌}
use prox.Engine.{Engine, EngineState, state_running, state_paused, is_running_state}
use prox.Engine.Options.{is_running}
use prox.Conductor.{
  Command, start, pause, resume, close, Conducted, conduct, start_engine, pause_engine,
  resume_engine, close_engine, start_daemons,
}

-- What is counted over a sequence of calls.
pub record Totals : Type 0 where
  -- The job spawners that were started.
  pub spawned : ℕ
  -- The calls of Pause and Close that returned no error.
  pub pauses : ℕ
  -- Whether Close was called.
  pub closed : Bool

abbrev pub stops : Command → Bool
stops pause = true
stops close = true
stops _ = false

abbrev pub closes : Command → Bool
closes close = true
closes _ = false

-- The status that a call leaves.
abbrev pub status_after : Command → EngineState → EngineState
status_after start _ = state_running
status_after resume _ = state_running
status_after pause s = if is_running_state s then state_paused else s
status_after close s = if is_running_state s then state_paused else s

module _ {P L M : Type 0} where
  abbrev pub after : Command → Conducted P L M → Totals → Totals
  after c r t = record {
    spawned = t.spawned + r.spawned;
    pauses = if r.failed then t.pauses else if stops c then t.pauses + 1 else t.pauses;
    closed = t.closed || closes c;
  }

  -- The calls one after another.
  pub conduct_all : List Command → Engine P L M → Totals → Engine P L M × Totals
  conduct_all [] e t = (e, t)
  conduct_all (c ∷ cs) e t =
      let r : Conducted P L M = conduct c e in conduct_all cs r.engine (after c r t)

  -- The invariant.
  pub record Balanced (e : Engine P L M) (t : Totals) : Type 0 where
    pub balance : t.spawned ≡ t.pauses + (if is_running e then 1 else 0)
    pub dead : e.ctx_done ≡ t.closed

  conduct-Balanced :
      (c : Command) (e : Engine P L M) (t : Totals)
      → Balanced e t
      → Balanced (conduct c e).engine (after c (conduct c e) t)
  unfolding start_engine pause_engine resume_engine close_engine start_daemons
  conduct-Balanced start e t b = record { balance = ground arith; dead = ground arith }
  conduct-Balanced pause e t b = record { balance = ground arith; dead = ground arith }
  conduct-Balanced resume e t b = record { balance = ground arith; dead = ground arith }
  conduct-Balanced close e t b = record { balance = ground arith; dead = ground arith }

  -- Over any sequence of Start, Pause, Resume and Close, the job spawners that were started are as many
  -- as the pauses that succeeded, and one more exactly while the engine runs; the context is done
  -- exactly when Close was called. This holds of every later point of a sequence that starts where it
  -- holds, and of a new engine.
  pub conduct_all-Balanced :
      (cs : List Command) (e : Engine P L M) (t : Totals)
      → Balanced e t
      → Balanced (conduct_all cs e t).0 (conduct_all cs e t).1
  unfolding conduct_all
  conduct_all-Balanced [] e t b = b
  conduct_all-Balanced (c ∷ cs) e t b =
      conduct_all-Balanced cs (conduct c e).engine (after c (conduct c e) t)
        (conduct-Balanced c e t b)

  -- Start and Resume leave the engine running and return an error exactly when it ran already; Pause
  -- and Close return an error exactly when it does not run, and leave it paused when it does and with
  -- the status it had when it does not.
  pub conduct_lem :
      (c : Command) (e : Engine P L M)
      → ((conduct c e).engine.status ≡ status_after c e.status)
        × ((conduct c e).failed ≡ (if stops c then not (is_running e) else is_running e))
  unfolding start_engine pause_engine resume_engine close_engine start_daemons
  conduct_lem start e = (ground arith, ground arith)
  conduct_lem pause e = (ground arith, ground arith)
  conduct_lem resume e = (ground arith, ground arith)
  conduct_lem close e = (ground arith, ground arith)

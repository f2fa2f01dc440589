-- ===== src/Spawner.antt =====
-- daemons.go: the loop of the job spawner, one round at a time. A job is the validation of a proxy, or
-- of nil.
pub mod Turns
use prox.Base.{
  ℕ, zero, suc, Bool, true, false, not, List, [], ◌∷◌, ◌++◌, Option, none, some, pos, if◌then◌else◌,
}
use prox.Text.{Bytes}
use prox.Text.Decimal.{itoa}
use prox.Debug.{simple_string, dbg_print}
use prox.Scaler.{Ants}
use prox.Engine.{Engine, Limiter, Plot}
use prox.Engine.Options.{is_running, get_recycling_status}
use prox.Scale.{scale}
use prox.Daemons.{recycling}

-- How a round ends: the loop stops, goes on with nothing done, or has submitted a job.
pub data Turn : Type 0 where
  stops : Turn
  idles : Turn
  submits : Option ℕ → Turn

module _ {P L M : Type 0} where
  -- What Submit answers, where `some` is an error, which is printed.
  unfoldable pub submitted : Option Bytes → Engine P L M → Engine P L M
  submitted none e = e
  submitted (some err) e = record e { debug = dbg_print err e.debug }

module _ {P L M : Type 0} ⦃ants : Ants P⦄ where
  -- What jobSpawner does before its loop and after it.
  unfoldable pub spawner_starts : Engine P L M → Engine P L M
  spawner_starts e = record e {
    pool = ants.reboot e.pool;
    debug = dbg_print (simple_string "job spawner started") e.debug;
  }

  unfoldable pub spawner_stops : Engine P L M → Engine P L M
  spawner_stops e = record e {
    pool = ants.release e.pool;
    debug = dbg_print (simple_string "job spawner paused") e.debug;
  }

module _ {P L M : Type 0} ⦃ants : Ants P⦄ ⦃limiter : Limiter L⦄ ⦃plots : Plot M⦄
    (shuffle : List (Bytes × ℕ) → List (Bytes × ℕ)) (refusal : ℕ → Option Bytes) where
  -- Nothing is pending.
  unfoldable pub recycle_round : Engine P L M → Engine P L M × Turn
  recycle_round e =
      let (e', count) = recycling shuffle e in
      elim count [
        | zero ↦ (e', idles)
        | suc n ↦ (
          record e' {
            debug =
                dbg_print
                  (simple_string "recycled "
                    ++ (itoa (pos (suc n)) ++ simple_string " proxies from our map"))
                  e'.debug;
          },
          idles,
        )
      ]

  -- The front of Pending goes to its back and is the job, if recycling is on; else the job is nil.
  unfoldable pub next_job : ℕ → List ℕ → Engine P L M → Engine P L M × Option ℕ
  next_job p rest e =
      if get_recycling_status e
      then (record e { pending = rest ++ (p ∷ []) }, some p)
      else (e, none)

  -- The scaler's tick, and the job, whose submission at a time is refused or not.
  unfoldable pub submit_round : ℕ → Engine P L M × Option ℕ → Option (Engine P L M × Turn)
  submit_round now (e, job) = elim (scale now e) [
    | none ↦ none
    | some (f, sleep) ↦ some (submitted (refusal now) f, submits job)
  ]

  unfoldable pub pending_round : ℕ → List ℕ → Engine P L M → Option (Engine P L M × Turn)
  unfolding recycle_round next_job submit_round
  pending_round now [] e = some (recycle_round e)
  pending_round now (p ∷ rest) e = submit_round now (next_job p rest e)

  -- A round; `none` is a panic.
  unfoldable pub spawner_round : ℕ → Engine P L M → Option (Engine P L M × Turn)
  unfolding pending_round
  spawner_round now e =
      if not (is_running e) then some (e, stops) else pending_round now e.pending e

  abbrev pub after_turn :
      Turn
      → Engine P L M
      → Option (Engine P L M × List (Option ℕ))
      → Option (Engine P L M × List (Option ℕ))
  after_turn stops f rest = some (f, [])
  after_turn idles f rest = rest
  after_turn (submits job) f none = none
  after_turn (submits job) f (some (g, jobs)) = some (g, job ∷ jobs)

  -- Rounds at the given times, up to the end of the loop, with the jobs that they submit.
  unfoldable pub spawner_rounds : List ℕ → Engine P L M → Option (Engine P L M × List (Option ℕ))
  unfolding spawner_round
  spawner_rounds [] e = some (e, [])
  spawner_rounds (now ∷ times) e = elim (spawner_round now e) [
    | none ↦ none
    | some (f, turn) ↦ after_turn turn f (spawner_rounds times f)
  ]

  -- jobSpawner over rounds at the given times: it is done once the engine does not run.
  unfoldable pub job_spawner : List ℕ → Engine P L M → Option (Engine P L M × List (Option ℕ))
  unfolding spawner_starts spawner_stops spawner_rounds
  job_spawner times e = elim (spawner_rounds times (spawner_starts e)) [
    | none ↦ none
    | some (f, jobs) ↦ some (if is_running f then f else spawner_stops f, jobs)
  ]

-- ===== src/Spawner/Turns.antt =====
-- Each pending proxy has its turn.
use prox.Base.{
  ℕ, ◌≡◌, refl, ap, sym, ◌∙◌, Bool, true, List, [], ◌∷◌, ◌++◌, map, length, Option, none, some,
  arith, if◌then◌else◌, append_assoc, append-nil,
}
use prox.Text.{Bytes}
use prox.Scaler.{Ants}
use prox.Scaler.Bounds.{IsTunable, InStep}
use prox.Engine.{Engine, Limiter, Plot, is_running_state}
use prox.Engine.Options.{is_running, get_recycling_status}
use prox.Scale.{scale}
use prox.Scale.Ticks.{Ticked, Ticked-refl, Ticked-trans, scale-Ticked}
use prox.Spawner.{
  submitted, submits, next_job, submit_round, pending_round, spawner_round, spawner_rounds,
}

module _ {P L M : Type 0} ⦃ants : Ants P⦄ ⦃limiter : Limiter L⦄ ⦃plots : Plot M⦄
    (shuffle : List (Bytes × ℕ) → List (Bytes × ℕ)) (refusal : ℕ → Option Bytes)
    (tunable : IsTunable ants) where
  next_job_on :
      (p : ℕ) (rest : List ℕ) (e : Engine P L M)
      → get_recycling_status e ≡ true
      → next_job shuffle refusal p rest e ≡ (record e { pending = rest ++ (p ∷ []) }, some p)
  unfolding next_job
  next_job_on p rest e on =
      let moved : Engine P L M = record e { pending = rest ++ (p ∷ []) } in
      let job : Bool → Engine P L M × Option ℕ = λ b. if b then (moved, some p) else (e, none) in
      ap job on

  submit_round_done :
      (now : ℕ) (e : Engine P L M) (job : Option ℕ) (r : Engine P L M × Bool)
      → scale now e ≡ some r
      → submit_round shuffle refusal now (e, job) ≡ some (submitted (refusal now) r.0, submits job)
  unfolding submit_round
  submit_round_done now e job r done = rw (done, submit_round)

  submitted-Ticked :
      (answer : Option Bytes) (e : Engine P L M)
      → InStep tunable e.scaler e.pool
      → Ticked tunable e (submitted answer e)
  unfolding submitted
  submitted-Ticked none e v = Ticked-refl tunable e v
  submitted-Ticked (some err) e v = record {
    in_step = v;
    settings = (refl, refl, refl);
    heap = refl;
    plot = refl;
    valids = refl;
    pending = refl;
    status = refl;
    opt = refl;
    next_address = refl;
  }

  running_round :
      (now : ℕ) (e : Engine P L M)
      → is_running e ≡ true
      → spawner_round shuffle refusal now e ≡ pending_round shuffle refusal now e.pending e
  unfolding spawner_round
  running_round now e running = rw running

  front_round :
      (now p : ℕ) (rest : List ℕ) (e : Engine P L M)
      → pending_round shuffle refusal now (p ∷ rest) e
        ≡ submit_round shuffle refusal now (next_job shuffle refusal p rest e)
  unfolding pending_round
  front_round now p rest e = refl

  spawner_round_pending :
      (now p : ℕ) (rest : List ℕ) (e : Engine P L M)
      → is_running e ≡ true
      → e.pending ≡ p ∷ rest
      → spawner_round shuffle refusal now e
        ≡ submit_round shuffle refusal now (next_job shuffle refusal p rest e)
  spawner_round_pending now p rest e running queue =
      running_round now e running
      ∙ ap (λ l. pending_round shuffle refusal now l e) queue
      ∙ front_round now p rest e

  turn :
      (now p : ℕ) (rest : List ℕ) (e : Engine P L M)
      → InStep tunable e.scaler e.pool
      → is_running e ≡ true
      → get_recycling_status e ≡ true
      → e.pending ≡ p ∷ rest
      → (f : Engine P L M) × (spawner_round shuffle refusal now e ≡ some (f, submits (some p)))
        × Ticked tunable (record e { pending = rest ++ (p ∷ []) }) f
  turn now p rest e v running on queue =
      let moved : Engine P L M = record e { pending = rest ++ (p ∷ []) } in
      let (r, done, t) = scale-Ticked tunable now moved v in
      (
        submitted (refusal now) r.0,
        spawner_round_pending now p rest e running queue
            ∙ ap (submit_round shuffle refusal now) (next_job_on p rest e on)
            ∙ submit_round_done now moved (some p) r done,
        Ticked-trans tunable moved r.0 _ t (submitted-Ticked (refusal now) r.0 t.in_step),
      )

  -- While the engine runs with recycling on, and from a scaler in step, as many rounds as the first part
  -- of Pending is long submit the validation of each proxy of that part, in order, and put that part
  -- behind the rest.
  pub turns_lem :
      (times front back : List ℕ) (e : Engine P L M)
      → InStep tunable e.scaler e.pool
      → is_running e ≡ true
      → get_recycling_status e ≡ true
      → e.pending ≡ front ++ back
      → length times ≡ length front
      → (f : Engine P L M) × (spawner_rounds shuffle refusal times e ≡ some (f, map some front))
        × (f.pending ≡ back ++ front)
  unfolding spawner_rounds
  turns_lem [] [] back e v running on queue n = (e, refl, queue ∙ sym (append-nil back))
  turns_lem (now ∷ times) [] back e v running on queue n = absurd (omega arith)
  turns_lem [] (p ∷ front) back e v running on queue n = absurd (omega arith)
  turns_lem (now ∷ times) (p ∷ front) back e v running on queue n =
      let (f, done, t) = turn now p (front ++ back) e v running on queue in
      let (g, more, left) =
        turns_lem times front (back ++ (p ∷ [])) f t.in_step
          (ap is_running_state t.status ∙ running) (ap (λ o. o.recycle) t.opt ∙ on)
          (t.pending ∙ append_assoc front back (p ∷ [])) (omega arith) in
      (
        g,
        rw (done, spawner_rounds) (rw (more, spawner_rounds)),
        left ∙ append_assoc back (p ∷ []) front,
      )

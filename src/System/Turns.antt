-- ===== src/System/Turns.antt =====
-- The job spawner and the scaler keep the invariant, and do not panic.
use mathlib.Core.List.{Perm}
use prox.Base.{
  arith, ℕ, ◌<◌, ◌≡◌, refl, ap, Bool, List, [], ◌∷◌, ◌++◌, Option, some, inl, inr, All, All-append,
  Bool-cases, ℕ-cases,
}
use prox.Text.{Bytes}
use prox.Scaler.{Ants}
use prox.Scaler.Bounds.{IsTunable}
use prox.Engine.{Engine, Limiter, Plot}
use prox.Engine.Options.{is_running}
use prox.Daemons.{recycling}
use prox.Daemons.MapLaws.{PlotLaws}
use prox.Scale.{scale}
use prox.Scale.Kept.{IsStable, Ticked, scale-Ticked}
use prox.Scaler.Upright.{IsUpright, Moves-IsUpright}
use prox.Spawner.{
  submitted, spawner_starts, spawner_stops, Turn, stops, submits, recycle_round, next_job,
  submit_round, pending_round, spawner_round,
}
use prox.System.{Internet}
use prox.System.Sound.{
  Framed, Advances, Advances-trans, IsSound, Safe, Safe-trans, Safe-refl, if-Safe, Framed-Safe,
}
use prox.System.Queues.{requeued}
use prox.System.Draws.{recycling-Safe}
use prox.System.Resized.{repooled}
use prox.System.Parts.{submitted-Framed, tell-Framed}

IsUpright-IsStable : {P : Type 0} ⦃ants : Ants P⦄ → IsStable {P = P} (λ s pool. IsUpright s)
IsUpright-IsStable = record {
  nonneg = λ s pool v. omega (arith, v.nonneg);
  closed = Moves-IsUpright;
}

module _ ⦃internet : Internet⦄ {P L M : Type 0} ⦃ants : Ants P⦄ ⦃limiter : Limiter L⦄
    ⦃plots : Plot M⦄ (tunable : IsTunable ants) where
  pub spawner_starts-Safe : (e : Engine P L M) → Safe tunable e (spawner_starts e)
  unfolding spawner_starts
  spawner_starts-Safe e = repooled tunable (ants.reboot e.pool) _ e

  pub spawner_stops-Safe : (e : Engine P L M) → Safe tunable e (spawner_stops e)
  unfolding spawner_stops
  spawner_stops-Safe e = repooled tunable (ants.release e.pool) _ e

  -- The scaler and the pool of another engine.
  Ticked-Framed :
      (e f : Engine P L M)
      → Ticked (λ s (pool : P). IsUpright s) e f
      → Framed e (record f { scaler = e.scaler; pool = e.pool })
  Ticked-Framed e f t = record {
    endpoints = λ a. ap (λ h. (h a).endpoint) t.heap;
    protocols = λ a. inl (ap (λ h. (h a).protocol) t.heap);
    next_address = t.next_address;
    plot = t.plot;
    pending = t.pending;
    scaler = refl;
    pool = refl;
    valids = t.valids;
  }

  Ticked-Safe : (e f : Engine P L M) → Ticked (λ s (pool : P). IsUpright s) e f → Safe tunable e f
  Ticked-Safe e f t v =
      let (w, a) =
        Framed-Safe tunable e (record f { scaler = e.scaler; pool = e.pool }) (Ticked-Framed e f t)
          v in
      (
        record {
          known = record {
            exists = w.known.exists;
            keyed = w.known.keyed;
            queued = w.known.queued;
          };
          listed = w.listed;
          once = w.once;
          upright = t.in_step;
        },
        record { grows = a.grows; keeps = a.keeps },
      )

  -- A tick does not panic.
  pub scale-Safe :
      (now : ℕ) (e : Engine P L M)
      → IsSound tunable e
      → (r : Engine P L M × Bool) × (scale now e ≡ some r) × IsSound tunable r.0 × Advances e r.0
  scale-Safe now e v =
      let (r, done, t) =
        scale-Ticked (λ s (pool : P). IsUpright s) IsUpright-IsStable now e v.upright in
      let (w, a) = Ticked-Safe e r.0 t v in (r, done, w, a)

  module _ (laws : PlotLaws plots) (shuffle : List (Bytes × ℕ) → List (Bytes × ℕ))
      (refusal : ℕ → Option Bytes) (permutes : (l : List (Bytes × ℕ)) → Perm (shuffle l) l) where
    recycle_round-Safe : (e : Engine P L M) → Safe tunable e (recycle_round shuffle refusal e).0
    unfolding recycle_round
    recycle_round-Safe e =
        let r : Engine P L M × ℕ = recycling shuffle e in
        let done : Safe tunable e r.0 = recycling-Safe tunable laws shuffle permutes e in
        elim (ℕ-cases r.1) [
          | inl none_left ↦ rw (none_left, recycle_round) done
          | inr (n, some_left) ↦
              rw (some_left, recycle_round)
                (Safe-trans tunable e r.0 _ done (Framed-Safe tunable r.0 _ (tell-Framed _ r.0)))
        ]

    -- What a round that does not panic leaves.
    Rounds : Engine P L M → Option (Engine P L M × Turn) → Type 0
    Rounds e o = (r : Engine P L M × Turn) × (o ≡ some r) × IsSound tunable r.0 × Advances e r.0

    submit_round-Safe :
        (now : ℕ) (x : Engine P L M × Option ℕ) (e : Engine P L M)
        → Safe tunable e x.0
        → IsSound tunable e
        → Rounds e (submit_round shuffle refusal now x)
    unfolding submit_round Rounds
    submit_round-Safe now (f, job) e s v =
        let (w, a) = s v in
        let (r, done, x, b) = scale-Safe now f w in
        let g : Engine P L M = submitted (refusal now) r.0 in
        let (y, c) = Framed-Safe tunable r.0 g (submitted-Framed (refusal now) r.0) x in
        (
          (g, submits job),
          rw (done, submit_round),
          y,
          Advances-trans e f g a (Advances-trans f r.0 g b c),
        )

    pending_round-Safe :
        (now : ℕ) (l : List ℕ) (e : Engine P L M)
        → All (λ p. p < e.next_address) l
        → IsSound tunable e
        → Rounds e (pending_round shuffle refusal now l e)
    unfolding pending_round next_job Rounds
    pending_round-Safe now [] e h v =
        (let (w, a) = recycle_round-Safe e v in (recycle_round shuffle refusal e, refl, w, a))
    pending_round-Safe now (p ∷ rest) e h v =
        submit_round-Safe now _ e
          (if-Safe tunable e.opt.recycle e _ _
            (requeued tunable (rest ++ (p ∷ [])) e
              (All-append (λ q. q < e.next_address) rest (p ∷ []) h.1 (h.0, tt)))
            (Safe-refl tunable e))
          v

    -- A round of the job spawner does not panic.
    pub spawner_round-Safe :
        (now : ℕ) (e : Engine P L M)
        → IsSound tunable e
        → (r : Engine P L M × Turn) × (spawner_round shuffle refusal now e ≡ some r)
          × IsSound tunable r.0
          × Advances e r.0
    unfolding spawner_round Rounds
    spawner_round-Safe now e v = elim (Bool-cases (is_running e)) [
      | inl up ↦ rw up (pending_round-Safe now e.pending e v.known.queued v)
      | inr down ↦ rw down (let (w, a) = Safe-refl tunable e v in ((e, stops), refl, w, a))
    ]

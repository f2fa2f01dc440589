-- ===== src/System/Reached.antt =====
-- What holds in every state that an engine can reach, whatever the order of the steps.
use mathlib.Core.List.{Perm}
use prox.Base.{Option, ℕ, ◌<◌, ◌≡◌, Bool, true, List, some, inl, inr, arith}
use prox.Text.{Bytes}
use prox.Scaler.{Ants}
use prox.Scaler.Bounds.{IsTunable}
use prox.Debug.{Debug}
use prox.Engine.{Engine, Limiter, Plot, def_opt, engine_with}
use prox.Daemons.MapLaws.{PlotLaws}
use prox.Scale.{scale}
use prox.Spawner.{Turn, spawner_round}
use prox.System.{Internet, Reach}
use prox.System.Sound.{IsSound}
use prox.System.Turns.{scale-Safe, spawner_round-Safe}
use prox.System.Steps.{Reach-Safe, engine_with-IsSound}

module _ ⦃internet : Internet⦄ {P L M : Type 0} ⦃ants : Ants P⦄ ⦃limiter : Limiter L⦄
    ⦃plots : Plot M⦄ (tunable : IsTunable ants) (laws : PlotLaws plots)
    (shuffle : List (Bytes × ℕ) → List (Bytes × ℕ))
    (permutes : (l : List (Bytes × ℕ)) → Perm (shuffle l) l) where
  -- In every state that an engine can reach from its start, around a pool of the default capacity and
  -- by any order of the steps: the map and Pending are made of proxies that exist; every list of
  -- validated proxies holds only proxies that exist and whose protocol is that of the list; a protocol
  -- is null until it is set, and of one that is set the check on the proxy's endpoint succeeds, with
  -- some options, on one of the networks that the history may meet; and the number of
  -- workers that the scaler has added is never negative, with each tick of the scaler as one step. The
  -- random source must permute what it shuffles.
  pub reached-IsSound :
      (now : ℕ) (debug : Debug) (pool : P)
      → ants.cap pool ≡ def_opt.max_workers
      → {e : Engine P L M} → Reach shuffle (engine_with now debug pool) e
      → IsSound tunable e
  reached-IsSound now debug pool h {e} r =
      (Reach-Safe tunable laws shuffle permutes (engine_with now debug pool) e r
        (engine_with-IsSound tunable laws shuffle permutes now debug pool h)).0

  -- Once the protocol of a proxy is set it never changes again: from a state with the invariant, it is
  -- the same in every later state.
  pub reached_protocol :
      {e f : Engine P L M}
      → IsSound tunable e
      → Reach shuffle e f
      → (a : ℕ) → a < e.next_address
      → (e.heap a).protocol.fired ≡ true
      → (f.heap a).protocol ≡ (e.heap a).protocol
  reached_protocol {e} {f} v r a old fired =
      elim ((Reach-Safe tunable laws shuffle permutes e f r v).1.keeps a) [
        | inl new ↦ absurd (omega (arith, new))
        | inr (inl same) ↦ same
        | inr (inr (unset, _)) ↦ absurd (cc (unset, fired))
      ]

  -- No round of the job spawner panics, nor does a tick of the scaler, in any state that the engine
  -- can reach from its start around a pool of the default capacity, whatever the setters did to the
  -- scaler and the pool, with each tick of the scaler as one step. The random source must permute what
  -- it shuffles.
  pub reached_runs :
      (now : ℕ) (debug : Debug) (pool : P)
      → ants.cap pool ≡ def_opt.max_workers
      → {e : Engine P L M} → Reach shuffle (engine_with now debug pool) e
      → (refusal : ℕ → Option Bytes) (later : ℕ)
      → ((r : Engine P L M × Turn) × (spawner_round shuffle refusal later e ≡ some r))
        × ((r : Engine P L M × Bool) × (scale later e ≡ some r))
  reached_runs now debug pool h {e} r refusal later =
      let v : IsSound tunable e = reached-IsSound now debug pool h r in
      let (x, runs, _, _) = spawner_round-Safe tunable laws shuffle refusal permutes later e v in
      let (y, ticks_on, _, _) = scale-Safe tunable later e v in ((x, runs), (y, ticks_on))

-- ===== src/System/Parts.antt =====
-- The conductor and the parts of a dial keep the invariant.
use prox.Base.{
  Bool, true, false, ℕ, ◌<◌, Option, none, some, inl, inr, arith, Bool-cases, Option-cases,
}
use prox.Text.{Bytes}
use prox.Proxy.{locked, unlocked, is_unlocked, get_proto, get}
use prox.Debug.{Debug, msg_try}
use prox.Scaler.{Ants}
use prox.Scaler.Bounds.{IsTunable}
use prox.Engine.{Engine, Limiter, Plot}
use prox.Engine.Lists.{channel_of}
use prox.Engine.Store.{set_lock}
use prox.Conductor.{
  Command, start, pause, resume, close, conduct, start_engine, pause_engine, resume_engine,
  close_engine, start_daemons,
}
use prox.Spawner.{submitted}
use prox.Dialer.{Outside, lock_or_requeue, try_proxy, dial_with, answered, tell}
use prox.System.{Internet}
use prox.System.Sound.{
  Framed-refl, Framed, Framed-trans, Safe, Safe-refl, Framed-Safe, set_lock-Framed, aside-Framed,
}
use prox.System.Queues.{enqueue-Safe}

module _ ⦃internet : Internet⦄ {P L M : Type 0} where
  pub conduct-Framed : (c : Command) (e : Engine P L M) → Framed e (conduct c e).engine
  unfolding start_engine pause_engine resume_engine close_engine start_daemons
  conduct-Framed start e = record {
    endpoints = λ a. ground arith;
    protocols = λ a. inl (ground arith);
    next_address = ground arith;
    plot = ground arith;
    pending = ground arith;
    scaler = ground arith;
    pool = ground arith;
    valids = ground arith;
  }
  conduct-Framed pause e = record {
    endpoints = λ a. ground arith;
    protocols = λ a. inl (ground arith);
    next_address = ground arith;
    plot = ground arith;
    pending = ground arith;
    scaler = ground arith;
    pool = ground arith;
    valids = ground arith;
  }
  conduct-Framed resume e = record {
    endpoints = λ a. ground arith;
    protocols = λ a. inl (ground arith);
    next_address = ground arith;
    plot = ground arith;
    pending = ground arith;
    scaler = ground arith;
    pool = ground arith;
    valids = ground arith;
  }
  conduct-Framed close e = record {
    endpoints = λ a. ground arith;
    protocols = λ a. inl (ground arith);
    next_address = ground arith;
    plot = ground arith;
    pending = ground arith;
    scaler = ground arith;
    pool = ground arith;
    valids = ground arith;
  }

  pub submitted-Framed : (answer : Option Bytes) (e : Engine P L M) → Framed e (submitted answer e)
  unfolding submitted
  submitted-Framed none e = Framed-refl e
  submitted-Framed (some err) e = aside-Framed _ e.stats e.recycle_tick e

  pub tell-Framed : (d : Debug) (e : Engine P L M) → Framed e (tell d e)
  tell-Framed d e = aside-Framed d e.stats e.recycle_tick e

  dial_with-Framed :
      (world : Outside) (network addr socks : Bytes) (count q : ℕ) (e : Engine P L M)
      → Framed e (dial_with world network addr socks count q e).0
  unfolding dial_with
  dial_with-Framed world network addr socks count q e =
      let f : Engine P L M = tell (msg_try e.opt.redact socks e.debug) e in
      let g : Engine P L M = set_lock q unlocked f in
      let told : Framed e g = Framed-trans e f g (tell-Framed _ e) (set_lock-Framed q unlocked f) in
      elim (Option-cases (world.socks_dial socks network addr)) [
        | inl done ↦ rw (done, dial_with) (Framed-trans e g _ told (tell-Framed _ g))
        | inr (err, broken) ↦ rw (broken, dial_with) (Framed-trans e g _ told (tell-Framed _ g))
      ]

  answered-Framed :
      (world : Outside) (network addr socks : Bytes) (count : ℕ) (m : Option ℕ × Bool)
      (e : Engine P L M)
      → Framed e (answered world network addr socks count m e).0
  unfolding answered
  answered-Framed world network addr socks count (some q, true) e =
      dial_with-Framed world network addr socks count q e
  answered-Framed world network addr socks count (some q, false) e =
      Framed-trans e (set_lock q unlocked e) _ (set_lock-Framed q unlocked e) (tell-Framed _ _)
  answered-Framed world network addr socks count (none, true) e = tell-Framed _ e
  answered-Framed world network addr socks count (none, false) e = Framed-refl e

  pub try_proxy-Framed :
      (world : Outside) (network addr : Bytes) (count p : ℕ) (e : Engine P L M)
      → Framed e (try_proxy world network addr count p e).0
  unfolding try_proxy
  try_proxy-Framed world network addr count p e =
      answered-Framed world network addr _ count (world.middleware p) e

module _ ⦃internet : Internet⦄ {P L M : Type 0} ⦃ants : Ants P⦄ ⦃limiter : Limiter L⦄
    ⦃plots : Plot M⦄ (tunable : IsTunable ants) where
  pub lock_or_requeue-Safe :
      (p : ℕ) (e : Engine P L M) → p < e.next_address → Safe tunable e (lock_or_requeue p e).0
  unfolding lock_or_requeue get_proto get
  lock_or_requeue-Safe p e old = elim (Bool-cases (is_unlocked (e.heap p).lock)) [
    | inl free ↦ rw free (Framed-Safe tunable e _ (set_lock-Framed p locked e))
    | inr taken ↦ elim (Option-cases (channel_of (e.heap p).protocol.value)) [
      | inl unknown ↦ rw (taken, unknown) (Safe-refl tunable e)
      | inr (c, known) ↦ rw (taken, known) (enqueue-Safe tunable c p e (old, known))
    ]
  ]

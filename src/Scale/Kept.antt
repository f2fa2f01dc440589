-- ===== src/Scale/Kept.antt =====
-- A tick of the auto scaler keeps whatever its moves keep, and changes nothing else.
use prox.Base.{
  ℕ, ◌≡◌, refl, ◌∙◌, Bool, true, false, some, ℤ, pos, arith, Bool-cases, inl, inr, ltb_ℤ, ◌≤ℤ◌,
}
use prox.Scaler.{Ants, AutoScaler, Outcome}
use prox.Scaler.Modes.{Moves, scale_ants-Moves, SameSettings}
use prox.Engine.{Engine, Limiter}
use prox.Engine.Counters.{get_total_validated, get_total_bad}
use prox.Scale.{account, account_due, considered, with_outcome, scale_pool, scale, scale_dbg}

-- What is kept of the scaler and the pool by the moves of ScaleAnts, and rules out its panic.
pub record IsStable {P : Type 0} ⦃ants : Ants P⦄ (Q : AutoScaler → P → Type 0) : Type 0 where
  pub nonneg : (s : AutoScaler) (pool : P) → Q s pool → pos 0 ≤ℤ s.scale_mod
  pub closed :
      (s : AutoScaler) (pool : P) (o : Outcome P)
      → Q s pool
      → SameSettings s o.0
      → Moves s pool o
      → Q o.0 o.1

module _ {P L M : Type 0} (Q : AutoScaler → P → Type 0) where
  -- A tick leaves the scaler and the pool as is asked for, and changes none of what the proxies are kept in.
  pub record Ticked (e : Engine P L M) (f : Engine P L M) : Type 0 where
    pub in_step : Q f.scaler f.pool
    pub settings : SameSettings e.scaler f.scaler
    pub heap : f.heap ≡ e.heap
    pub plot : f.plot ≡ e.plot
    pub valids : f.valids ≡ e.valids
    pub pending : f.pending ≡ e.pending
    pub status : f.status ≡ e.status
    pub opt : f.opt ≡ e.opt
    pub next_address : f.next_address ≡ e.next_address

module _ {P L M : Type 0} ⦃ants : Ants P⦄ ⦃limiter : Limiter L⦄ (Q : AutoScaler → P → Type 0)
    (stable : IsStable Q) where
  with_outcome-Ticked :
      (e : Engine P L M) (sleep : Bool) (o : Outcome P)
      → Q o.0 o.1
      → SameSettings e.scaler o.0
      → Ticked Q e (with_outcome e sleep o).0
  unfolding with_outcome scale_dbg
  with_outcome-Ticked e sleep (s, pool, true) v same = record {
    in_step = v;
    settings = same;
    heap = refl;
    plot = refl;
    valids = refl;
    pending = refl;
    status = refl;
    opt = refl;
    next_address = refl;
  }
  with_outcome-Ticked e sleep (s, pool, false) v same = record {
    in_step = v;
    settings = same;
    heap = refl;
    plot = refl;
    valids = refl;
    pending = refl;
    status = refl;
    opt = refl;
    next_address = refl;
  }

  counted :
      (now : ℕ) (total net : ℤ) (up : Bool) (e : Engine P L M)
      → Q e.scaler e.pool
      → Ticked Q e (account_due up now total net e).0
  counted now total net true e v = record {
    in_step = v;
    settings = (refl, refl, refl);
    heap = refl;
    plot = refl;
    valids = refl;
    pending = refl;
    status = refl;
    opt = refl;
    next_address = refl;
  }
  counted now total net false e v = record {
    in_step = v;
    settings = (refl, refl, refl);
    heap = refl;
    plot = refl;
    valids = refl;
    pending = refl;
    status = refl;
    opt = refl;
    next_address = refl;
  }

  account-Ticked : (now : ℕ) (e : Engine P L M) → Q e.scaler e.pool → Ticked Q e (account now e).0
  unfolding account get_total_bad
  account-Ticked now e v =
      let f : Engine P L M = record e { bad_prox = limiter.delete_expired e.bad_prox } in
      let t : Ticked Q f (account now e).0 = counted now _ _ _ f v in
      record {
        in_step = t.in_step;
        settings = t.settings;
        heap = t.heap;
        plot = t.plot;
        valids = t.valids;
        pending = t.pending;
        status = t.status;
        opt = t.opt;
        next_address = t.next_address;
      }

  account-nonneg : (now : ℕ) (e : Engine P L M) → ltb_ℤ (account now e).1 (pos 0) ≡ false
  unfolding account get_total_bad
  account-nonneg now e = ground arith

  pub Ticked-refl : (e : Engine P L M) → Q e.scaler e.pool → Ticked Q e e
  Ticked-refl e v = record {
    in_step = v;
    settings = (refl, refl, refl);
    heap = refl;
    plot = refl;
    valids = refl;
    pending = refl;
    status = refl;
    opt = refl;
    next_address = refl;
  }

  unticked : (e : Engine P L M) → Q e.scaler e.pool → Ticked Q e (record e { scale_tick = false })
  unticked e v = record {
    in_step = v;
    settings = (refl, refl, refl);
    heap = refl;
    plot = refl;
    valids = refl;
    pending = refl;
    status = refl;
    opt = refl;
    next_address = refl;
  }

  pub Ticked-trans : (e f g : Engine P L M) → Ticked Q e f → Ticked Q f g → Ticked Q e g
  Ticked-trans e f g s t = record {
    in_step = t.in_step;
    settings =
        (t.settings.0 ∙ s.settings.0, t.settings.1 ∙ s.settings.1, t.settings.2 ∙ s.settings.2);
    heap = t.heap ∙ s.heap;
    plot = t.plot ∙ s.plot;
    valids = t.valids ∙ s.valids;
    pending = t.pending ∙ s.pending;
    status = t.status ∙ s.status;
    opt = t.opt ∙ s.opt;
    next_address = t.next_address ∙ s.next_address;
  }

  scale_pool-Ticked :
      (e : Engine P L M) (bad : ℤ)
      → Q e.scaler e.pool
      → (r : Engine P L M × Bool) × (scale_pool e bad ≡ some r) × Ticked Q e r.0
  unfolding scale_pool
  scale_pool-Ticked e bad v =
      let (o, same, settings, moves) =
        scale_ants-Moves e.scaler e.pool (get_total_validated e) (considered e bad).0
          (stable.nonneg e.scaler e.pool v) in
      (
        with_outcome e (considered e bad).1 o,
        rw (same, scale_pool),
        with_outcome-Ticked e _ o (stable.closed e.scaler e.pool o v settings moves) settings,
      )

  scale_open :
      (now : ℕ) (e : Engine P L M)
      → e.scale_tick ≡ true
      → ants.is_closed (account now (record e { scale_tick = false })).0.pool ≡ false
      → scale now e
        ≡ scale_pool
            (account now (record e { scale_tick = false })).0
            (account now (record e { scale_tick = false })).1
  unfolding scale
  scale_open now e on up = rw (on, account-nonneg now (record e { scale_tick = false }), up)

  pub scale-Ticked :
      (now : ℕ) (e : Engine P L M)
      → Q e.scaler e.pool
      → (r : Engine P L M × Bool) × (scale now e ≡ some r) × Ticked Q e r.0
  unfolding scale
  scale-Ticked now e v =
      let f : Engine P L M = record e { scale_tick = false } in
      let a : Engine P L M × ℤ = account now f in
      let t : Ticked Q e a.0 = Ticked-trans e f a.0 (unticked e v) (account-Ticked now f v) in
      let (r, same, u) = scale_pool-Ticked a.0 a.1 t.in_step in
      elim (Bool-cases e.scale_tick) [
        | inr off ↦ ((e, false), rw off, Ticked-refl e v)
        | inl on ↦ elim (Bool-cases (ants.is_closed a.0.pool)) [
          | inl shut ↦ ((a.0, false), rw (on, account-nonneg now f, shut), t)
          | inr up ↦ (r, scale_open now e on up ∙ same, Ticked-trans e a.0 r.0 t u)
        ]
      ]

-- ===== src/Scaler/Modes.antt =====
-- What one call of ScaleAnts does.
use prox.Base.{
  ◌≡◌, ◌≢◌, ◌↔◌, refl, Bool, true, false, ◌&&◌, none, some, ◌⊎◌, arith, ℤ, pos, ◌<ℤ◌, ◌≤ℤ◌, ltb_ℤ,
  sub64, if◌then◌else◌,
}
use prox.Scaler.{
  Ants, AutoScaler, State, disabled, idle, Outcome, scale_up, scale_down, scale_off, scale_switch,
  scale_on, scale_body, scale_ants, is_on,
}

-- The settings are what they were.
abbrev pub SameSettings : AutoScaler → AutoScaler → Type 0
SameSettings s t = (t.max ≡ s.max) × (t.baseline ≡ s.baseline) × (t.threshold ≡ s.threshold)

module _ {P : Type 0} ⦃ants : Ants P⦄ where
  -- Nothing but the state may change; the pool and `mod` take a step up; or a step down.
  abbrev pub Moves : AutoScaler → P → Outcome P → Type 0
  Moves s pool o =
      ((o.1 ≡ pool) × (o.2 ≡ false) × (o.0.scale_mod ≡ s.scale_mod))
      ⊎ ((o ≡ scale_up s pool) × (s.scale_mod <ℤ s.max) × (s.state ≢ disabled))
      ⊎ ((o.0.scale_mod ≡ (scale_down s pool).0.scale_mod)
          × (o.1 ≡ (scale_down s pool).1)
          × (o.2 ≡ true)
          × (pos 0 <ℤ s.scale_mod))

  scale_switch-Moves :
      (st : State) (up down : Bool) (s : AutoScaler) (pool : P)
      → st ≡ s.state
      → (up ≡ true → s.scale_mod <ℤ s.max)
      → (down ≡ true → pos 0 <ℤ s.scale_mod)
      → SameSettings s (scale_switch st up down s pool).0
        × Moves s pool (scale_switch st up down s pool)
  unfolding scale_switch
  scale_switch-Moves disabled true down s pool e hu hd = ground arith
  scale_switch-Moves _ up down s pool e hu hd = ground arith

  scale_on-Moves :
      (s : AutoScaler) (pool : P) (validated dispensed : ℤ)
      → SameSettings s (scale_on s pool validated dispensed).0
        × Moves s pool (scale_on s pool validated dispensed)
  unfolding scale_on
  scale_on-Moves s pool validated dispensed = ground (
    arith,
    scale_switch-Moves s.state
        (ltb_ℤ (sub64 validated dispensed) s.threshold && ltb_ℤ s.scale_mod s.max)
        (ltb_ℤ (pos 0) s.scale_mod && ltb_ℤ s.threshold (sub64 validated dispensed)) s pool refl,
  )

  scale_off-Moves :
      (s : AutoScaler) (pool : P)
      → SameSettings s (scale_off s pool).0 × Moves s pool (scale_off s pool)
  unfolding scale_off
  scale_off-Moves s pool = ground arith

  scale_body-Moves :
      (s : AutoScaler) (pool : P) (validated dispensed : ℤ)
      → SameSettings s (scale_body s pool validated dispensed).0
        × Moves s pool (scale_body s pool validated dispensed)
  unfolding scale_body
  scale_body-Moves s pool validated dispensed =
      ground (arith, scale_off-Moves s pool, scale_on-Moves s pool validated dispensed)

  -- Unless `mod` is negative, a call does not panic, keeps the settings, and does one of three things:
  -- it leaves pool and `mod` alone and returns false; it takes both one step up and returns true, with
  -- the scaler on and `mod` below the maximum; it takes both one step down and returns true, with `mod`
  -- above zero.
  pub scale_ants-Moves :
      (s : AutoScaler) (pool : P) (validated dispensed : ℤ)
      → pos 0 ≤ℤ s.scale_mod
      → (o : Outcome P) × (scale_ants s pool validated dispensed ≡ some o)
        × SameSettings s o.0
        × Moves s pool o
  scale_ants-Moves s pool validated dispensed h =
      let capped : ℤ = if ltb_ℤ validated dispensed then validated else dispensed in
      (
        scale_body s pool validated capped,
        (unfold scale_ants in ground arith),
        (scale_body-Moves s pool validated capped).0,
        (scale_body-Moves s pool validated capped).1,
      )

  -- A call panics exactly when `mod` is negative.
  scale_ants_panics :
      (s : AutoScaler) (pool : P) (validated dispensed : ℤ)
      → (scale_ants s pool validated dispensed ≡ none) ↔ (s.scale_mod <ℤ pos 0)
  unfolding scale_ants
  scale_ants_panics s pool validated dispensed = (λ h. ground arith, λ h. ground arith)

  scale_ants_on :
      (s : AutoScaler) (pool : P) (validated dispensed : ℤ)
      → s.state ≢ disabled
      → pos 0 ≤ℤ s.scale_mod
      → dispensed ≤ℤ validated
      → scale_ants s pool validated dispensed ≡ some (scale_on s pool validated dispensed)
  unfolding scale_ants scale_body is_on
  scale_ants_on s pool validated dispensed on h k = ground arith

  -- The scaler takes a step up when it is on, no more proxies are dispensed than validated, their gap is
  -- below the threshold, at least `threshold` proxies are validated, `mod` is below the maximum, and the
  -- scaler is idle or has scaled already.
  pub scale_ants_up :
      (s : AutoScaler) (pool : P) (validated dispensed : ℤ)
      → s.state ≢ disabled
      → pos 0 ≤ℤ s.scale_mod
      → dispensed ≤ℤ validated
      → sub64 validated dispensed <ℤ s.threshold
      → s.scale_mod <ℤ s.max
      → s.threshold ≤ℤ validated
      → (s.state ≡ idle) ⊎ (pos 0 <ℤ s.scale_mod)
      → scale_ants s pool validated dispensed ≡ some (scale_up s pool)
  unfolding scale_on scale_switch
  scale_ants_up s pool validated dispensed on h k g m t i =
      rw (scale_ants_on s pool validated dispensed on h k) (ground arith)

  -- It takes a step down when it is on, the gap is above the threshold, and `mod` is above zero.
  pub scale_ants_down :
      (s : AutoScaler) (pool : P) (validated dispensed : ℤ)
      → s.state ≢ disabled
      → dispensed ≤ℤ validated
      → s.threshold <ℤ sub64 validated dispensed
      → pos 0 <ℤ s.scale_mod
      → scale_ants s pool validated dispensed ≡ some (scale_down s pool)
  unfolding scale_on scale_switch
  scale_ants_down s pool validated dispensed on k g m =
      rw (scale_ants_on s pool validated dispensed on (omega arith) k) (ground arith)

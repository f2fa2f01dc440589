-- ===== src/Scaler.antt =====
-- internal/scaler/scaler.go: the auto scaler of the worker pool. An `AutoScaler` is used from one
-- goroutine at a time here, so that each atomic access is a read or a write of a field.
pub mod Bounds
pub mod Upright
pub mod Modes
use prox.Base.{
  ℕ, Bool, true, false, not, ◌&&◌, ◌||◌, Option, none, some, String, if◌then◌else◌, ℤ, pos, negsuc,
  ltb_ℤ, eqb_ℤ, add64, sub64,
}
use prox.Text.{Bytes, codes}

-- The worker pool of github.com/panjf2000/ants. `new_pool` is NewPool with its error as `none`, and
-- `release` and `reboot` close it and open it again.
pub record Ants (P : Type 0) : Type 0 where
  pub new_pool : ℤ → Option P
  pub release : P → P
  pub reboot : P → P
  pub cap : P → ℤ
  pub tune : P → ℤ → P
  pub is_closed : P → Bool

pub data State : Type 0 where
  disabled idle scaling_up scaling_down : State

pub State-discrete : Discrete State
State-discrete = hlevel

abbrev pub is_disabled : State → Bool
is_disabled disabled = true
is_disabled _ = false

abbrev pub is_idle : State → Bool
is_idle idle = true
is_idle _ = false

pub record AutoScaler : Type 0 where
  pub max : ℤ
  pub state : State
  pub baseline : ℤ
  pub scale_mod : ℤ
  pub threshold : ℤ

unfoldable pub new_auto_scaler : ℤ → ℤ → ℤ → AutoScaler
new_auto_scaler baseline max difference_threshold = record {
  max = max;
  state = disabled;
  baseline = baseline;
  scale_mod = pos 0;
  threshold = difference_threshold;
}

unfoldable pub disable : AutoScaler → AutoScaler
disable s = record s { state = disabled }

unfoldable pub enable : AutoScaler → AutoScaler
enable s = record s { state = idle }

unfoldable pub is_on : AutoScaler → Bool
is_on s = not (is_disabled s.state)

unfoldable pub state_string : AutoScaler → Bytes
state_string s = elim s.state [
  | disabled ↦ codes "disabled"
  | idle ↦ codes "idle"
  | scaling_up ↦ codes "scaling up"
  | scaling_down ↦ codes "scaling down"
]

unfoldable pub set_max : AutoScaler → ℤ → AutoScaler
set_max s max = record s { max = max }

unfoldable pub set_threshold : AutoScaler → ℤ → AutoScaler
set_threshold s threshold = record s { threshold = threshold }

unfoldable pub set_baseline : AutoScaler → ℤ → AutoScaler
set_baseline s baseline = record s { baseline = baseline }

-- The scaler and the pool after a call, with its result.
abbrev pub Outcome : Type 0 → Type 0
Outcome P = AutoScaler × P × Bool

module _ {P : Type 0} ⦃ants : Ants P⦄ where
  abbrev pub unchanged : AutoScaler → P → Outcome P
  unchanged s pool = (s, pool, false)

  -- `as.mod` plus one, `pool.Tune(pool.Cap() + 1)`, and the state that the CAS leaves.
  abbrev pub scale_up : AutoScaler → P → Outcome P
  scale_up s pool = (
    record s { state = scaling_up; scale_mod = add64 s.scale_mod (pos 1) },
    ants.tune pool (add64 (ants.cap pool) (pos 1)),
    true,
  )

  abbrev pub scale_down : AutoScaler → P → Outcome P
  scale_down s pool = (
    record s { state = scaling_down; scale_mod = add64 s.scale_mod (negsuc 0) },
    ants.tune pool (sub64 (ants.cap pool) (pos 1)),
    true,
  )

  -- The way back to the baseline while the scaler is off; here `mod` is not negative.
  scale_off : AutoScaler → P → Outcome P
  scale_off s pool =
      if eqb_ℤ s.scale_mod (pos 0)
      then unchanged s pool
      else if ltb_ℤ (pos 0) s.scale_mod
      then (if not (ltb_ℤ s.baseline (ants.cap pool)) then unchanged s pool else (
        record s { scale_mod = add64 s.scale_mod (negsuc 0) },
        ants.tune pool (sub64 (ants.cap pool) (pos 1)),
        true,
      ))
      else unchanged s pool

  -- The last `switch`: each case is guarded by the state that its CAS expects.
  scale_switch : State → Bool → Bool → AutoScaler → P → Outcome P
  scale_switch idle true down s pool = scale_up s pool
  scale_switch scaling_up true down s pool = scale_up s pool
  scale_switch scaling_down true down s pool = scale_up s pool
  scale_switch scaling_up false true s pool = scale_down s pool
  scale_switch idle false true s pool = scale_down s pool
  scale_switch scaling_down false true s pool = scale_down s pool
  scale_switch _ _ _ s pool = unchanged s pool

  scale_on : AutoScaler → P → ℤ → ℤ → Outcome P
  unfolding scale_switch
  scale_on s pool validated dispensed =
      let up : Bool = ltb_ℤ (sub64 validated dispensed) s.threshold && ltb_ℤ s.scale_mod s.max in
      let down : Bool =
        ltb_ℤ (pos 0) s.scale_mod && ltb_ℤ s.threshold (sub64 validated dispensed) in
      let noop : Bool =
        ((is_idle s.state && not up && not down)
          || (up && not (ltb_ℤ s.scale_mod s.max))
          || ltb_ℤ validated s.threshold)
        && eqb_ℤ s.scale_mod (pos 0) in
      if noop
      then unchanged s pool
      else if ((not up && not down) || eqb_ℤ s.scale_mod (pos 0)) && not (is_idle s.state)
      then (record s { state = idle }, pool, false)
      else scale_switch s.state up down s pool

  -- The code behind the two checks at the head of ScaleAnts.
  pub scale_body : AutoScaler → P → ℤ → ℤ → Outcome P
  unfolding is_on scale_off scale_on
  scale_body s pool validated dispensed =
      if not (is_on s) then scale_off s pool else scale_on s pool validated dispensed

  -- `none` is the panic on a negative `mod`.
  unfoldable pub scale_ants : AutoScaler → P → ℤ → ℤ → Option (Outcome P)
  unfolding scale_body
  scale_ants s pool validated dispensed =
      let capped : ℤ = if ltb_ℤ validated dispensed then validated else dispensed in
      if ltb_ℤ s.scale_mod (pos 0) then none else some (scale_body s pool validated capped)

-- ===== src/Scale.antt =====
-- scale_util.go: a tick of the auto scaler, with the proxies that went bad counted as dispensed. A tick
-- is one step, although the spawner and the dials of the source may call scale at once.
pub mod Kept
pub mod Ticks
use prox.Base.{
  ℕ, ◌*◌, Bool, true, false, not, ◌&&◌, List, [], ◌∷◌, ◌++◌, Option, none, some, ℤ, pos, ltb_ℤ,
  sub64, add64, quot_ℤ, if◌then◌else◌,
}
use prox.Text.Decimal.{itoa}
use prox.Debug.{simple_string, dbg_print, printf, Arg, int}
use prox.Scaler.{Ants, scale_ants, Outcome}
use prox.Engine.{Engine, Limiter, second}
use prox.Engine.Counters.{since, get_total_bad, get_total_validated}

module _ {P L M : Type 0} ⦃ants : Ants P⦄ ⦃limiter : Limiter L⦄ where
  unfoldable pub scale_dbg : Engine P L M → Engine P L M
  scale_dbg e = record e {
    debug =
        if not e.debug.enabled
        then e.debug
        else dbg_print
            (simple_string "job spawner auto scaling, new count: " ++ itoa (ants.cap e.pool))
            e.debug;
  }

  abbrev pub account_net : ℕ → ℤ → ℤ → Engine P L M → Engine P L M
  account_net now total net e = record e {
    debug =
        if e.debug.enabled
        then printf "accounting: %d bad - %d accounted for = %d net factors"
            (int total ∷ int e.stats.bad_accounted ∷ int net ∷ []) e.debug
        else e.debug;
    stats = record e.stats { accounting_last_done = now };
  }

  abbrev pub account_due : Bool → ℕ → ℤ → ℤ → Engine P L M → Engine P L M × ℤ
  account_due due now total net e = if due then (account_net now total net e, net) else (e, pos 0)

  -- The bad proxies that a tick takes into account: none within five seconds of the last accounting.
  unfoldable pub account : ℕ → Engine P L M → Engine P L M × ℤ
  account now e =
      let (e', total) = get_total_bad e in
      let net : ℤ = sub64 total e.stats.bad_accounted in
      let due : Bool =
        ltb_ℤ (pos (5 * second)) (since now e.stats.accounting_last_done) && ltb_ℤ (pos 0) net in
      account_due due now total net e'

  -- The count that the scaler is given, and whether the dialer should sleep.
  unfoldable pub considered : Engine P L M → ℤ → ℤ × Bool
  considered e bad =
      let validated : ℤ = get_total_validated e in
      let total : ℤ = add64 e.stats.dispensed bad in
      if ltb_ℤ total validated
      then (total, false)
      else (sub64 validated (quot_ℤ e.scaler.threshold 2), true)

  unfoldable pub with_outcome : Engine P L M → Bool → Outcome P → Engine P L M × Bool
  with_outcome e sleep (s, pool, true) = (scale_dbg (record e { scaler = s; pool = pool }), sleep)
  with_outcome e sleep (s, pool, false) = (record e { scaler = s; pool = pool }, sleep)

  -- The scaler's call, for a pool that is open.
  unfoldable pub scale_pool : Engine P L M → ℤ → Option (Engine P L M × Bool)
  scale_pool e bad =
      elim (scale_ants e.scaler e.pool (get_total_validated e) (considered e bad).0) [
        | none ↦ none
        | some o ↦ some (with_outcome e (considered e bad).1 o)
      ]

  -- scale at time `now`; `none` is a panic.
  unfoldable pub scale : ℕ → Engine P L M → Option (Engine P L M × Bool)
  scale now e =
      let (e', bad) = account now (record e { scale_tick = false }) in
      if not e.scale_tick
      then some (e, false)
      else if ltb_ℤ bad (pos 0)
      then none
      else if ants.is_closed e'.pool
      then some (e', false)
      else scale_pool e' bad

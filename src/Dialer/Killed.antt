-- ===== src/Dialer/Killed.antt =====
-- A dial after CloseAllConns.
use prox.Base.{
  ℕ, ◌≡◌, refl, ap, ◌∙◌, false, true, List, [], ◌∷◌, some, pos, ltb_ℤ, if_true, if_false,
}
use prox.Text.{Bytes}
use prox.Scaler.{Ants}
use prox.Debug.{announce_dial}
use prox.Engine.{Engine, Limiter, Plot}
use prox.Engine.Counters.{is_empty}
use prox.Engine.Options.{get_dialer_bailout}
use prox.Conductor.Connections.{Watch, close_all_conns, close_all_conns-full}
use prox.Dialer
use prox.Dialer.{
  Outside, Moment, Alarm, context_done, engine_closed, connections_killed, first_alarm, outer_round,
  outer, Next, Outcome, ends, failed, alarmed, tell, mystery_dialer,
}
use prox.Dialer.Tries.{IsOnTime, IsCalm, calm_round, go_on}

-- The `select` looks at `conKiller` at some point.
abbrev pub Hears : List Alarm → Type 0
Hears [] = ⊥
Hears (connections_killed ∷ rest) = Unit
Hears (_ ∷ rest) = Hears rest

module _ {P L M : Type 0} where
  -- The kill is all that can be heard.
  killed_first :
      (moment : Moment P L M) (e : Engine P L M) (order : List Alarm)
      → IsOnTime moment
      → e.ctx_done ≡ false
      → e.con_killer ≡ true
      → Hears order
      → first_alarm moment e order ≡ some connections_killed
  unfolding first_alarm
  killed_first moment e [] on_time open_engine full m = absurd m
  killed_first moment e (connections_killed ∷ rest) on_time open_engine full m =
      if_true e.con_killer _ _ full
  killed_first moment e (context_done ∷ rest) on_time open_engine full m =
      if_false moment.cancelled _ _ on_time.uncancelled
      ∙ killed_first moment e rest on_time open_engine full m
  killed_first moment e (engine_closed ∷ rest) on_time open_engine full m =
      if_false e.ctx_done _ _ open_engine ∙ killed_first moment e rest on_time open_engine full m
  killed_first moment e (Dialer.timed_out ∷ rest) on_time open_engine full m =
      if_false moment.expired _ _ on_time.in_time
      ∙ killed_first moment e rest on_time open_engine full m

  outer_round_killed :
      (moment : Moment P L M) (e : Engine P L M)
      → IsOnTime moment
      → e.ctx_done ≡ false
      → e.con_killer ≡ true
      → Hears moment.order
      → ltb_ℤ (get_dialer_bailout e) (pos 0) ≡ false
      → outer_round moment 0 e
        ≡ (record e { con_killer = false }, ends (failed (alarmed connections_killed)))
  unfolding outer_round
  outer_round_killed moment e on_time open_engine full m patient =
      rw (patient, on_time.uncancelled, outer_round)
        (rw (killed_first moment e moment.order on_time open_engine full m, outer_round) refl)

module _ {P L M : Type 0} ⦃ants : Ants P⦄ ⦃limiter : Limiter L⦄ ⦃plots : Plot M⦄
    (shuffle : List (Bytes × ℕ) → List (Bytes × ℕ)) (world : Outside) (network addr : Bytes) where
  -- CloseAllConns also ends the next dial: once it has returned, a dial that starts on the engine that it
  -- leaves, if that is open and has proxies by its counters and a bailout that is not negative, and if
  -- nobody else acts and neither the caller nor the timer ends the dial, fails in its first round as if
  -- its connection had been killed, and that empties the buffer.
  pub mystery_dialer_killed :
      (watches : List (Watch P L M)) (moment : Moment P L M) (schedule : List (Moment P L M))
      (e : Engine P L M)
      → (close_all_conns watches e).1 ≡ true
      → let f : Engine P L M = (close_all_conns watches e).0 in
        is_empty f ≡ false
        → f.ctx_done ≡ false
        → ltb_ℤ (get_dialer_bailout f) (pos 0) ≡ false
        → IsCalm moment
        → Hears moment.order
        → let (g, outcome) = mystery_dialer shuffle world network addr (moment ∷ schedule) f in
          (outcome ≡ failed (alarmed connections_killed)) × (g.con_killer ≡ false)
  unfolding mystery_dialer is_empty
  mystery_dialer_killed watches moment schedule e returned filled open_engine patient calm m =
      let f : Engine P L M = (close_all_conns watches e).0 in
      let g : Engine P L M = tell (announce_dial f.opt.redact network addr f.debug) f in
      let full : f.con_killer ≡ true = close_all_conns-full watches e returned in
      let last : Engine P L M = record g { con_killer = false } in
      let r : Engine P L M × Outcome =
        mystery_dialer shuffle world network addr (moment ∷ schedule) f in
      let killed : r
          ≡ go_on shuffle world network addr schedule
              (last, ends (failed (alarmed connections_killed))) =
        if_false (is_empty g) _ _ filled
        ∙ calm_round shuffle world network addr moment schedule (outer 0) g calm
        ∙ ap (go_on shuffle world network addr schedule)
            (outer_round_killed moment g calm.on_time open_engine full m patient) in
      let over : go_on shuffle world network addr schedule
            (last, ends (failed (alarmed connections_killed)))
          ≡ (last, failed (alarmed connections_killed)) =
        unfold go_on in refl in
      (ap (λ x. x.1) (killed ∙ over), ap (λ x. x.0.con_killer) (killed ∙ over))

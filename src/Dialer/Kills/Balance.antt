-- ===== src/Dialer/Kills/Balance.antt =====
-- Where the kills of CloseAllConns go.
use prox.Base.{
  ℕ, zero, suc, ◌+◌, ◌≡◌, refl, ap, sym, ◌∙◌, ◌⊎◌, Bool, true, false, not, List, [], ◌∷◌, Option,
  none, some, arith, Bool-cases, inl, inr, if◌then◌else◌, ltb_ℤ, pos,
}
use prox.Engine.{Engine}
use prox.Engine.Options.{get_dialer_bailout}
use prox.Conductor.Connections.{
  Watch, Case, kills, closed, timed_out, is_ready, first_ready, run_case, leave,
}
use prox.Dialer
use prox.Dialer.{
  Moment, Alarm, context_done, engine_closed, connections_killed, Next, inner, ends, goes, failed,
  alarmed, rings, first_alarm, outer_round, heard,
}
use prox.Dialer.Kills.{
  Conn, conn_rings, first_ring, ended, watch_conn, watch_at, Event, tries, leaves, watches, dials,
  Deaths, count_send, count_leave, count_conn, count_dial, happens, happen, one_if, live_count,
}

-- What a search through a list finds.
picked :
    {A : Type 0} (b : Bool) (x y : A) (later : Option A)
    → (if b then some x else later) ≡ some y
    → ((b ≡ true) × (x ≡ y)) ⊎ (later ≡ some y)
picked true x y later h = inl (refl, cc h)
picked false x y later h = inr h

off : (b : Bool) → not b ≡ true → b ≡ false
off false h = refl
off true h = sym h

module _ {P L M : Type 0} where
  -- With `n` kills in the buffer and `m` connections up at the start.
  pub record Settled (n m : ℕ) (s : List Conn × Engine P L M × Deaths) : Type 0 where
    pub killed : s.2.sent + n ≡ s.2.conns + s.2.dials + one_if s.1.con_killer
    pub lives : live_count s.0 + s.2.conns + s.2.others ≡ m

  kills_ready :
      (watch : Watch P L M) (e : Engine P L M) (order : List Case)
      → first_ready watch e order ≡ some kills
      → e.con_killer ≡ false
  unfolding first_ready
  kills_ready watch e [] h = absurd (cc h)
  kills_ready watch e (c ∷ rest) h =
      elim (picked (is_ready watch e c) c kills (first_ready watch e rest) h) [
        | inl (ready, same) ↦ off e.con_killer (sym (ap (is_ready watch e) same) ∙ ready)
        | inr later ↦ kills_ready watch e rest later
      ]

  tried :
      (n m : ℕ) (ready : Option Case) (conns : List Conn) (e : Engine P L M) (t : Deaths)
      → (ready ≡ some kills → e.con_killer ≡ false)
      → Settled n m (conns, e, t)
      → Settled n m (conns, (run_case ready e).0, count_send ready t)
  unfolding run_case count_send
  tried n m none conns e t h v = v
  tried n m (some closed) conns e t h v = v
  tried n m (some timed_out) conns e t h v = v
  tried n m (some kills) conns e t h v = record {
    killed = ground (arith, h refl, v.killed);
    lives = v.lives;
  }

  left :
      (n m : ℕ) (conns : List Conn) (e : Engine P L M) (t : Deaths)
      → Settled n m (conns, e, t)
      → Settled n m (conns, leave e, count_leave e.con_killer t)
  unfolding count_leave
  left n m conns e t v = elim (Bool-cases e.con_killer) [
    | inl full ↦ record { killed = ground (arith, v.killed); lives = ground (arith, v.lives) }
    | inr empty ↦ record { killed = ground (arith, v.killed); lives = ground (arith, v.lives) }
  ]

  conn_killed :
      (c : Conn) (e : Engine P L M) (order : List Alarm)
      → first_ring c e order ≡ some connections_killed
      → e.con_killer ≡ true
  unfolding first_ring
  conn_killed c e [] h = absurd (cc h)
  conn_killed c e (a ∷ rest) h =
      elim (picked (conn_rings c e a) a connections_killed (first_ring c e rest) h) [
        | inl (rung, same) ↦ sym (ap (conn_rings c e) same) ∙ rung
        | inr later ↦ conn_killed c e rest later
      ]

  dial_killed :
      (moment : Moment P L M) (e : Engine P L M) (order : List Alarm)
      → first_alarm moment e order ≡ some connections_killed
      → e.con_killer ≡ true
  unfolding first_alarm
  dial_killed moment e [] h = absurd (cc h)
  dial_killed moment e (a ∷ rest) h =
      elim (picked (rings moment e a) a connections_killed (first_alarm moment e rest) h) [
        | inl (rung, same) ↦ sym (ap (rings moment e) same) ∙ rung
        | inr later ↦ dial_killed moment e rest later
      ]

  -- What the goroutine of a connection does to the counts.
  record Watched (conns conns' : List Conn) (e e' : Engine P L M) (a : Option Alarm) : Type 0 where
    pub taken :
        (t : Deaths)
        → (count_conn a t).sent + (t.conns + t.dials + one_if e.con_killer)
          ≡ t.sent + ((count_conn a t).conns + (count_conn a t).dials + one_if e'.con_killer)
    pub left_over :
        (t : Deaths)
        → live_count conns' + (count_conn a t).conns + (count_conn a t).others
          ≡ live_count conns + t.conns + t.others

  still : (conns : List Conn) (e : Engine P L M) → Watched conns conns e e none
  unfolding count_conn
  still conns e = record { taken = λ t. refl; left_over = λ t. refl }

  died :
      (a : Alarm) (c : Conn) (e : Engine P L M)
      → c.live ≡ true
      → (a ≡ connections_killed → e.con_killer ≡ true)
      → Watched (c ∷ []) (record c { live = false } ∷ []) e (heard a e) (some a)
  unfolding count_conn
  died connections_killed c e up h = record {
    taken = λ t. ground (arith, h refl);
    left_over = λ t. ground (arith, up);
  }
  died context_done c e up h = record { taken = λ t. refl; left_over = λ t. ground (arith, up) }
  died engine_closed c e up h = record { taken = λ t. refl; left_over = λ t. ground (arith, up) }
  died Dialer.timed_out c e up h = record { taken = λ t. refl; left_over = λ t. ground (arith, up) }

  ended-Watched :
      (r : Option Alarm) (c : Conn) (e : Engine P L M)
      → c.live ≡ true
      → (r ≡ some connections_killed → e.con_killer ≡ true)
      → let (c', e', a) = ended r c e in Watched (c ∷ []) (c' ∷ []) e e' a
  unfolding ended
  ended-Watched none c e up h = still (c ∷ []) e
  ended-Watched (some a) c e up h = died a c e up (λ same. h (ap some same))

  if-Watched :
      (b : Bool) (c : Conn) (e : Engine P L M) (x : Conn × Engine P L M × Option Alarm)
      → (b ≡ true → Watched (c ∷ []) (x.0 ∷ []) e x.1 x.2)
      → let (c', e', a) = (if b then x else (c, e, none)) in Watched (c ∷ []) (c' ∷ []) e e' a
  if-Watched true c e x h = h refl
  if-Watched false c e x h = still (c ∷ []) e

  watch_conn-Watched :
      (order : List Alarm) (c : Conn) (e : Engine P L M)
      → let (c', e', a) = watch_conn order c e in Watched (c ∷ []) (c' ∷ []) e e' a
  unfolding watch_conn
  watch_conn-Watched order c e =
      if-Watched c.live c e (ended (first_ring c e order) c e)
        (λ up. ended-Watched (first_ring c e order) c e up (conn_killed c e order))

  beside :
      (c c' : Conn) (conns : List Conn) (e e' : Engine P L M) (a : Option Alarm)
      → Watched (c ∷ []) (c' ∷ []) e e' a
      → Watched (c ∷ conns) (c' ∷ conns) e e' a
  beside c c' conns e e' a w = record {
    taken = w.taken;
    left_over = λ t. omega (arith, w.left_over t);
  }

  before :
      (c : Conn) (conns conns' : List Conn) (e e' : Engine P L M) (a : Option Alarm)
      → Watched conns conns' e e' a
      → Watched (c ∷ conns) (c ∷ conns') e e' a
  before c conns conns' e e' a w = record {
    taken = w.taken;
    left_over = λ t. omega (arith, w.left_over t);
  }

  watch_at-Watched :
      (i : ℕ) (order : List Alarm) (conns : List Conn) (e : Engine P L M)
      → let (conns', e', a) = watch_at i order conns e in Watched conns conns' e e' a
  unfolding watch_at
  watch_at-Watched i order [] e = still [] e
  watch_at-Watched zero order (c ∷ conns) e = beside c _ conns e _ _ (watch_conn-Watched order c e)
  watch_at-Watched (suc i) order (c ∷ conns) e =
      before c conns _ e _ _ (watch_at-Watched i order conns e)

  watched :
      (n m : ℕ) (conns conns' : List Conn) (e e' : Engine P L M) (a : Option Alarm) (t : Deaths)
      → Watched conns conns' e e' a
      → Settled n m (conns, e, t)
      → Settled n m (conns', e', count_conn a t)
  watched n m conns conns' e e' a t w v = record {
    killed = omega (arith, w.taken t, v.killed);
    lives = w.left_over t ∙ v.lives;
  }

  -- A dial that stands as before, or that has ended.
  abbrev Dialled : ℕ → ℕ → List Conn → Deaths → Engine P L M × Next → Type 0
  Dialled n m conns t (e, next) = Settled n m (conns, e, count_dial next t)

  if-Dialled :
      (n m : ℕ) (conns : List Conn) (t : Deaths) (b : Bool) (x y : Engine P L M × Next)
      → Dialled n m conns t x
      → Dialled n m conns t y
      → Dialled n m conns t (if b then x else y)
  if-Dialled n m conns t true x y h k = h
  if-Dialled n m conns t false x y h k = k

  alarmed-Dialled :
      (n m : ℕ) (conns : List Conn) (t : Deaths) (count : ℕ) (e : Engine P L M) (r : Option Alarm)
      → (r ≡ some connections_killed → e.con_killer ≡ true)
      → Settled n m (conns, e, t)
      → Dialled n m conns t (elim r [
        | none ↦ (e, goes (inner count))
        | some a ↦ (heard a e, ends (failed (alarmed a)))
      ])
  unfolding count_dial
  alarmed-Dialled n m conns t count e none h v = v
  alarmed-Dialled n m conns t count e (some context_done) h v = v
  alarmed-Dialled n m conns t count e (some engine_closed) h v = v
  alarmed-Dialled n m conns t count e (some Dialer.timed_out) h v = v
  alarmed-Dialled n m conns t count e (some connections_killed) h v = record {
    killed = ground (arith, h refl, v.killed);
    lives = v.lives;
  }

  dialled :
      (n m : ℕ) (moment : Moment P L M) (count : ℕ) (conns : List Conn) (e : Engine P L M)
      (t : Deaths)
      → Settled n m (conns, e, t)
      → Dialled n m conns t (outer_round moment count e)
  unfolding outer_round count_dial
  dialled n m moment count conns e t v =
      if-Dialled n m conns t (ltb_ℤ (get_dialer_bailout e) (pos count)) _ _ v (
        if-Dialled n m conns t moment.cancelled _ _ v (
          alarmed-Dialled n m conns t count e (first_alarm moment e moment.order)
            (dial_killed moment e moment.order) v))

  happens-Settled :
      (n m : ℕ) (event : Event P L M) (s : List Conn × Engine P L M × Deaths)
      → Settled n m s
      → Settled n m (happens event s)
  unfolding happens
  happens-Settled n m (tries watch) (conns, e, t) v =
      tried n m (first_ready watch e watch.order) conns e t (kills_ready watch e watch.order) v
  happens-Settled n m leaves (conns, e, t) v = left n m conns e t v
  happens-Settled n m (watches i order) (conns, e, t) v =
      watched n m conns _ e _ _ t (watch_at-Watched i order conns e) v
  happens-Settled n m (dials moment count) (conns, e, t) v = dialled n m moment count conns e t v

  happen-Settled :
      (n m : ℕ) (events : List (Event P L M)) (s : List Conn × Engine P L M × Deaths)
      → Settled n m s
      → Settled n m (happen events s)
  unfolding happen
  happen-Settled n m [] s v = v
  happen-Settled n m (event ∷ events) s v =
      happen-Settled n m events (happens event s) (happens-Settled n m event s v)

  -- Over any sequence of rounds of CloseAllConns, of its sends on the way out, of the goroutines of
  -- connections, and of dials at the head of their loop, from any state: every kill that was sent has
  -- ended one connection or one dial, or is in the buffer, which holds one; and every connection that was
  -- up is still up, was closed by a kill, or was closed because its context was done or the engine closed.
  pub happen_lem :
      (events : List (Event P L M)) (conns : List Conn) (e : Engine P L M)
      → let (conns', e', t) =
          happen events (conns, e, record { sent = 0; conns = 0; dials = 0; others = 0 }) in
        (t.sent + one_if e.con_killer ≡ t.conns + t.dials + one_if e'.con_killer)
        × (live_count conns' + t.conns + t.others ≡ live_count conns)
  happen_lem events conns e =
      let v =
        happen-Settled (one_if e.con_killer) (live_count conns) events
          (conns, e, record { sent = 0; conns = 0; dials = 0; others = 0 })
          (record { killed = omega arith; lives = omega arith }) in
      (v.killed, v.lives)

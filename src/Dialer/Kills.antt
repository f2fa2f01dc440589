-- ===== src/Dialer/Kills.antt =====
-- mystery_dialer.go: the goroutine that a dial leaves behind, which closes the connection once its
-- context is done, the engine is closed, or CloseAllConns sends a kill. The kills go to whoever takes
-- them first: such a goroutine, or a dial at the head of its loop.
pub mod Balance
use prox.Base.{
  ℕ, zero, suc, ◌+◌, ◌≡◌, refl, ap, ◌∙◌, Bool, true, false, List, [], ◌∷◌, Option, none, some,
  arith, Bool-cases, Option-cases, inl, inr, if◌then◌else◌,
}
use prox.Engine.{Engine}
use prox.Conductor.Connections.{Watch, Case, kills, closed, timed_out, first_ready, run_case, leave}
use prox.Dialer
use prox.Dialer.{
  Moment, Alarm, context_done, engine_closed, connections_killed, Next, ends, goes, failed, alarmed,
  outer_round, heard,
}

-- A connection that a dial returned: whether it is still up, and whether its context is done.
pub record Conn : Type 0 where
  pub live : Bool
  pub cancelled : Bool

module _ {P L M : Type 0} where
  abbrev conn_rings : Conn → Engine P L M → Alarm → Bool
  conn_rings c e context_done = c.cancelled
  conn_rings c e engine_closed = e.ctx_done
  conn_rings c e connections_killed = e.con_killer
  conn_rings c e Dialer.timed_out = false

  -- The `select` of the goroutine, which looks at the channels in some order and waits if none is ready.
  first_ring : Conn → Engine P L M → List Alarm → Option Alarm
  first_ring c e [] = none
  first_ring c e (a ∷ rest) =
      let later : Option Alarm = first_ring c e rest in if conn_rings c e a then some a else later

  -- The case of the `select`, with what the goroutine was ended by.
  unfoldable pub ended : Option Alarm → Conn → Engine P L M → Conn × Engine P L M × Option Alarm
  ended none c e = (c, e, none)
  ended (some a) c e = (record c { live = false }, heard a e, some a)

  -- The goroutine.
  unfoldable pub watch_conn : List Alarm → Conn → Engine P L M → Conn × Engine P L M × Option Alarm
  unfolding first_ring ended
  watch_conn order c e = if c.live then ended (first_ring c e order) c e else (c, e, none)

  -- The goroutine of one of the connections.
  watch_at : ℕ → List Alarm → List Conn → Engine P L M → List Conn × Engine P L M × Option Alarm
  unfolding watch_conn
  watch_at i order [] e = ([], e, none)
  watch_at zero order (c ∷ conns) e = let (c', e', a) = watch_conn order c e in (c' ∷ conns, e', a)
  watch_at (suc i) order (c ∷ conns) e =
      let (conns', e', a) = watch_at i order conns e in (c ∷ conns', e', a)

-- What happens: a round of CloseAllConns, the send on its way out, the goroutine of a connection, and a
-- dial at the head of its loop.
pub data Event (P L M : Type 0) : Type 0 where
  tries : Watch P L M → Event P L M
  leaves : Event P L M
  watches : ℕ → List Alarm → Event P L M
  dials : Moment P L M → ℕ → Event P L M

-- The kills that were sent, the connections and the dials that were ended by one, and the connections
-- that were closed for another reason.
pub record Deaths : Type 0 where
  pub sent : ℕ
  pub conns : ℕ
  pub dials : ℕ
  pub others : ℕ

unfoldable pub count_send : Option Case → Deaths → Deaths
count_send (some kills) t = record t { sent = t.sent + 1 }
count_send (some closed) t = t
count_send (some timed_out) t = t
count_send none t = t

unfoldable pub count_leave : Bool → Deaths → Deaths
count_leave true t = t
count_leave false t = record t { sent = t.sent + 1 }

unfoldable pub count_conn : Option Alarm → Deaths → Deaths
count_conn none t = t
count_conn (some connections_killed) t = record t { conns = t.conns + 1 }
count_conn (some context_done) t = record t { others = t.others + 1 }
count_conn (some engine_closed) t = record t { others = t.others + 1 }
count_conn (some Dialer.timed_out) t = record t { others = t.others + 1 }

unfoldable pub count_dial : Next → Deaths → Deaths
count_dial (ends (failed (alarmed connections_killed))) t = record t { dials = t.dials + 1 }
count_dial _ t = t

module _ {P L M : Type 0} where
  unfoldable pub happens :
      Event P L M → List Conn × Engine P L M × Deaths → List Conn × Engine P L M × Deaths
  unfolding watch_at count_send count_leave count_conn count_dial
  happens (tries watch) (conns, e, t) =
      let ready : Option Case = first_ready watch e watch.order in
      (conns, (run_case ready e).0, count_send ready t)
  happens leaves (conns, e, t) = (conns, leave e, count_leave e.con_killer t)
  happens (watches i order) (conns, e, t) =
      let (conns', e', a) = watch_at i order conns e in (conns', e', count_conn a t)
  happens (dials moment count) (conns, e, t) =
      let (e', next) = outer_round moment count e in (conns, e', count_dial next t)

  unfoldable pub happen :
      List (Event P L M) → List Conn × Engine P L M × Deaths → List Conn × Engine P L M × Deaths
  unfolding happens
  happen [] s = s
  happen (event ∷ events) s = happen events (happens event s)

abbrev pub one_if : Bool → ℕ
one_if b = if b then 1 else 0

abbrev pub live_count : List Conn → ℕ
live_count [] = 0
live_count (c ∷ conns) = one_if c.live + live_count conns

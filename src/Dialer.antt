-- ===== src/Dialer.antt =====
-- mystery_dialer.go: a dial through the proxies of the pool. What the other goroutines do, the clock and
-- the alarms come from a list of moments, one for each round of a loop.
pub mod Heap
pub mod Locks
pub mod Options
pub mod Bailout
pub mod Killed
pub mod Entries
pub mod Kills
pub mod Draws
pub mod Tries
pub mod Connects
pub mod Exhausted
use prox.Base.{
  ℕ, suc, Bool, true, false, not, List, [], ◌∷◌, ◌++◌, Option, none, some, pos, ltb_ℤ,
  if◌then◌else◌,
}
use prox.Text.{Bytes}
use prox.Proxy.{Lock, unlocked, locked, is_unlocked, get_proto}
use prox.Debug.{
  Debug, announce_dial, msg_failed_middleware, msg_try, msg_unable_to_reach, msg_using_proxy,
}
use prox.Scaler.{Ants}
use prox.Engine.{Engine, Limiter, Plot}
use prox.Engine.Counters.{is_empty}
use prox.Engine.Options.{get_dialer_bailout, proxy_string}
use prox.Engine.Lists.{Channel, channel_of, enqueue}
use prox.Engine.Store.{set_lock}
use prox.Scale.{scale}
use prox.Dispense.{get_any_socks}

-- The channels that end a dial.
pub data Alarm : Type 0 where
  context_done engine_closed connections_killed timed_out : Alarm

-- Why a dial ends without a connection.
pub data Failure : Type 0 where
  no_proxies : Failure
  gave_up : Failure
  alarmed : Alarm → Failure
  unknown_protocol : Failure

-- How a dial ends: the schedule may end before it.
pub data Outcome : Type 0 where
  connected : ℕ → Outcome
  failed : Failure → Outcome
  panicked : Outcome
  unfinished : Outcome

-- What popSockAndLockIt returns: an error, neither, or a proxy whose lock is held.
pub data Popped : Type 0 where
  pop_failed : Failure → Popped
  nothing : Popped
  holds : ℕ → Popped
  pop_panicked : Popped
  pop_unfinished : Popped

-- The user's middleware, which takes a proxy and gives back one, or nil, and socks.Dial on a proxy, a network
-- and an address, with `some` as an error.
pub record Outside : Type 0 where
  pub middleware : ℕ → Option ℕ × Bool
  pub socks_dial : Bytes → Bytes → Bytes → Option Bytes

-- A round: what the others do before it, whether the caller's context is done and the timer has
-- fired, the order in which `select` looks at the channels, the clock, and the rounds of GetAnySOCKS.
pub record Moment (P L M : Type 0) : Type 0 where
  pub others : Engine P L M → Engine P L M
  pub cancelled : Bool
  pub expired : Bool
  pub order : List Alarm
  pub now : ℕ
  pub draws : List ((Engine P L M → Engine P L M) × List Channel × ℕ)

-- Where the loops of mysteryDialer stand, with the failed dials so far: at the head of the outer loop, or
-- in the inner one.
pub data Place : Type 0 where
  outer inner : ℕ → Place

-- A round ends the dial or goes on to a place.
pub data Next : Type 0 where
  goes : Place → Next
  ends : Outcome → Next

module _ {P L M : Type 0} where
  abbrev pub rings : Moment P L M → Engine P L M → Alarm → Bool
  rings moment e context_done = moment.cancelled
  rings moment e engine_closed = e.ctx_done
  rings moment e connections_killed = e.con_killer
  rings moment e timed_out = moment.expired

  unfoldable pub first_alarm : Moment P L M → Engine P L M → List Alarm → Option Alarm
  first_alarm moment e [] = none
  first_alarm moment e (a ∷ rest) =
      let later : Option Alarm = first_alarm moment e rest in
      if rings moment e a then some a else later

  -- Taking from `conKiller` empties its buffer.
  abbrev pub heard : Alarm → Engine P L M → Engine P L M
  heard connections_killed e = record e { con_killer = false }
  heard _ e = e

  -- The end of popSockAndLockIt on a proxy: it is locked, or put back on its list. Nobody else acts
  -- between the end of GetAnySOCKS and this.
  unfoldable pub lock_or_requeue : ℕ → Engine P L M → Engine P L M × Popped
  unfolding set_lock get_proto enqueue
  lock_or_requeue p e =
      if is_unlocked (e.heap p).lock
      then (set_lock p locked e, holds p)
      else elim (channel_of (get_proto (e.heap p))) [
        | none ↦ (e, pop_failed unknown_protocol)
        | some c ↦ (enqueue c p e, nothing)
      ]

  abbrev pub tell : Debug → Engine P L M → Engine P L M
  tell d e = record e { debug = d }

  -- The head of the outer loop.
  unfoldable pub outer_round : Moment P L M → ℕ → Engine P L M → Engine P L M × Next
  unfolding first_alarm
  outer_round moment count e =
      if ltb_ℤ (get_dialer_bailout e) (pos count)
      then (e, ends (failed gave_up))
      else if moment.cancelled
      then (e, ends (failed (alarmed context_done)))
      else elim (first_alarm moment e moment.order) [
        | none ↦ (e, goes (inner count))
        | some a ↦ (heard a e, ends (failed (alarmed a)))
      ]

  module _ (world : Outside) (network addr : Bytes) where
    -- A dial through the proxy that the middleware gave back, whose lock is released first.
    unfoldable pub dial_with : Bytes → ℕ → ℕ → Engine P L M → Engine P L M × Next
    unfolding set_lock
    dial_with socks count q e =
        let e' : Engine P L M = set_lock q unlocked (tell (msg_try e.opt.redact socks e.debug) e) in
        elim (world.socks_dial socks network addr) [
          | none ↦ (tell (msg_using_proxy e'.opt.redact socks e'.debug) e', ends (connected q))
          | some err ↦ (
            tell (msg_unable_to_reach e'.opt.redact socks addr err e'.debug) e',
            goes (outer (suc count)),
          )
        ]

    -- What follows the middleware's answer. The lock of nil panics.
    unfoldable pub answered : Bytes → ℕ → Option ℕ × Bool → Engine P L M → Engine P L M × Next
    unfolding set_lock dial_with
    answered socks count (some q, true) e = dial_with socks count q e
    answered socks count (some q, false) e =
        (tell (msg_failed_middleware socks e.debug) (set_lock q unlocked e), goes (outer count))
    answered socks count (none, true) e =
        (tell (msg_try e.opt.redact socks e.debug) e, ends panicked)
    answered socks count (none, false) e = (e, ends panicked)

    -- The rest of the outer loop, with the lock of the proxy held.
    unfoldable pub try_proxy : ℕ → ℕ → Engine P L M → Engine P L M × Next
    unfolding answered
    try_proxy count p e = answered (proxy_string e.opt (e.heap p)) count (world.middleware p) e

module _ {P L M : Type 0} ⦃ants : Ants P⦄ ⦃limiter : Limiter L⦄ ⦃plots : Plot M⦄
    (shuffle : List (Bytes × ℕ) → List (Bytes × ℕ)) where
  -- What follows GetAnySOCKS.
  unfoldable pub after_draw :
      Moment P L M → Engine P L M × Option (Option ℕ) → Engine P L M × Popped
  unfolding lock_or_requeue
  after_draw moment (e, none) = (e, pop_unfinished)
  after_draw moment (e, some drawn) =
      if moment.cancelled
      then (e, pop_failed (alarmed context_done))
      else elim drawn [ none ↦ (e, nothing) | some p ↦ lock_or_requeue p e ]

  unfoldable pub pop_sock_and_lock : Moment P L M → Engine P L M → Engine P L M × Popped
  unfolding after_draw
  pop_sock_and_lock moment e =
      if is_empty e
      then elim (scale moment.now e) [
        | none ↦ (e, pop_panicked)
        | some (e', sleep) ↦ (e', pop_failed no_proxies)
      ]
      else after_draw moment (get_any_socks shuffle moment.draws e)

  module _ (world : Outside) (network addr : Bytes) where
    unfoldable pub after_pop : ℕ → Engine P L M × Popped → Engine P L M × Next
    unfolding try_proxy
    after_pop count (e, pop_failed why) = (e, ends (failed why))
    after_pop count (e, nothing) = (e, goes (inner count))
    after_pop count (e, holds p) = try_proxy world network addr count p e
    after_pop count (e, pop_panicked) = (e, ends panicked)
    after_pop count (e, pop_unfinished) = (e, ends unfinished)

    -- A round of the inner loop.
    unfoldable pub inner_round : Moment P L M → ℕ → Engine P L M → Engine P L M × Next
    unfolding pop_sock_and_lock after_pop
    inner_round moment count e = elim (scale moment.now e) [
      | none ↦ (e, ends panicked)
      | some (e', sleep) ↦ after_pop count (pop_sock_and_lock moment e')
    ]

    abbrev pub round : Moment P L M → Place → Engine P L M → Engine P L M × Next
    round moment (outer count) e = outer_round moment count e
    round moment (inner count) e = inner_round moment count e

    -- The loops under a schedule.
    unfoldable pub dial_from : List (Moment P L M) → Place → Engine P L M → Engine P L M × Outcome
    unfolding outer_round inner_round
    dial_from [] place e = (e, unfinished)
    dial_from (moment ∷ schedule) place e =
        let (e', next) = round moment place (moment.others e) in
        elim next [ goes place' ↦ dial_from schedule place' e' | ends outcome ↦ (e', outcome) ]

    -- mysteryDialer
    unfoldable pub mystery_dialer : List (Moment P L M) → Engine P L M → Engine P L M × Outcome
    unfolding dial_from
    mystery_dialer schedule e =
        let e' : Engine P L M = tell (announce_dial e.opt.redact network addr e.debug) e in
        if is_empty e' then (e', failed no_proxies) else dial_from schedule (outer 0) e'

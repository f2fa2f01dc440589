-- ===== src/Dialer/Tries.antt =====
-- What a calm round of a dial does: the head of the outer loop goes on, and a round of the inner loop tries
-- the proxy at the front of a list.
use prox.Base.{
  ℕ, ◌≡◌, refl, ap, ◌∙◌, false, not, List, [], ◌∷◌, none, some, pos, ltb_ℤ, if_true, if_false,
}
use prox.Text.{Bytes}
use prox.Proxy.{locked, unlocked, is_unlocked, get_proto}
use prox.Scaler.{Ants}
use prox.Engine.{Engine, Limiter, Plot}
use prox.Engine.Counters.{is_empty}
use prox.Engine.Options.{get_dialer_bailout, proxy_string}
use prox.Engine.Lists.{Channel, list_of}
use prox.Engine.Store.{set_lock, store, update_self}
use prox.Scale.{scale}
use prox.Dispense.{get_any_socks}
use prox.Dispense.Policy.{IsGood}
use prox.Dialer
use prox.Dialer.Draws.{first_drawn}
use prox.Dialer.{
  Alarm, context_done, engine_closed, connections_killed, Outcome, connected, Outside, Moment,
  Place, outer, inner, Next, goes, ends, holds, Popped, rings, first_alarm, outer_round,
  lock_or_requeue, tell, dial_with, try_proxy, after_draw, pop_sock_and_lock, after_pop,
  inner_round, round, dial_from, mystery_dialer,
}

module _ {P L M : Type 0} where
  -- Neither the caller's context nor the timer ends the dial.
  pub record IsOnTime (moment : Moment P L M) : Type 0 where
    pub uncancelled : moment.cancelled ≡ false
    pub in_time : moment.expired ≡ false

  -- Nobody else acts either.
  pub record IsCalm (moment : Moment P L M) : Type 0 where
    pub quiet : (e : Engine P L M) → moment.others e ≡ e
    pub on_time : IsOnTime moment

  -- Nothing rings.
  pub silent :
      (moment : Moment P L M) (e : Engine P L M) (order : List Alarm)
      → IsOnTime moment
      → e.ctx_done ≡ false
      → e.con_killer ≡ false
      → first_alarm moment e order ≡ none
  unfolding first_alarm
  silent moment e [] calm open_engine no_kill = refl
  silent moment e (context_done ∷ rest) calm open_engine no_kill =
      rw calm.uncancelled (silent moment e rest calm open_engine no_kill)
  silent moment e (engine_closed ∷ rest) calm open_engine no_kill =
      rw open_engine (silent moment e rest calm open_engine no_kill)
  silent moment e (connections_killed ∷ rest) calm open_engine no_kill =
      rw no_kill (silent moment e rest calm open_engine no_kill)
  silent moment e (Dialer.timed_out ∷ rest) calm open_engine no_kill =
      rw calm.in_time (silent moment e rest calm open_engine no_kill)

  pub outer_round-calm :
      (moment : Moment P L M) (count : ℕ) (e : Engine P L M)
      → IsOnTime moment
      → e.ctx_done ≡ false
      → e.con_killer ≡ false
      → ltb_ℤ (get_dialer_bailout e) (pos count) ≡ false
      → outer_round moment count e ≡ (e, goes (inner count))
  unfolding outer_round
  outer_round-calm moment count e calm open_engine no_kill under =
      let nothing_rings : first_alarm moment e moment.order ≡ none =
        silent moment e moment.order calm open_engine no_kill in
      rw (under, calm.uncancelled, outer_round) (rw (nothing_rings, outer_round) refl)

module _ {P L M : Type 0} where
  locked_free :
      (p : ℕ) (e : Engine P L M)
      → (e.heap p).lock ≡ unlocked
      → lock_or_requeue p e ≡ (set_lock p locked e, holds p)
  unfolding lock_or_requeue
  locked_free p e free = if_true (is_unlocked (e.heap p).lock) _ _ (ap is_unlocked free)

module _ {P L M : Type 0} where
  -- The moment of the inner round, whose first pass starts with the list `c` at the time `now`.
  pub record Draws (now : ℕ) (c : Channel) (moment : Moment P L M) : Type 0 where
    pub others : Engine P L M → Engine P L M
    pub lists : List Channel
    pub draws : List ((Engine P L M → Engine P L M) × List Channel × ℕ)
    pub passes : moment.draws ≡ (others, c ∷ lists, now) ∷ draws
    pub quiet : (e : Engine P L M) → others e ≡ e

module _ {P L M : Type 0} ⦃limiter : Limiter L⦄ ⦃plots : Plot M⦄ where
  -- The engine is open and holds no tick and no kill, its counters say that it has proxies, and a good proxy
  -- is at the front of a list.
  pub record CanDraw (now p : ℕ) (c : Channel) (rest : List ℕ) (e : Engine P L M) : Type 0 where
    pub no_tick : e.scale_tick ≡ false
    pub open_engine : e.ctx_done ≡ false
    pub no_kill : e.con_killer ≡ false
    pub filled : is_empty e ≡ false
    pub front : list_of c e.valids ≡ p ∷ rest
    pub good : IsGood now p e

module _ {P L M : Type 0} ⦃ants : Ants P⦄ ⦃limiter : Limiter L⦄ ⦃plots : Plot M⦄
    (shuffle : List (Bytes × ℕ) → List (Bytes × ℕ)) (world : Outside) (network addr : Bytes) where
  unticked : (now : ℕ) (e : Engine P L M) → e.scale_tick ≡ false → scale now e ≡ some (e, false)
  unfolding scale
  unticked now e h = if_true (not e.scale_tick) _ _ (ap not h)

  -- The name of a proxy does not depend on its lock.
  relocked_name :
      (p : ℕ) (e f : Engine P L M)
      → f.heap p ≡ e.heap p
      → f.opt ≡ e.opt
      → proxy_string (set_lock p locked f).opt ((set_lock p locked f).heap p)
        ≡ proxy_string e.opt (e.heap p)
  unfolding proxy_string get_proto set_lock store
  relocked_name p e f h k =
      ap (proxy_string f.opt) (update_self f.heap p (record (f.heap p) { lock = locked }))
      ∙ ap (λ o. proxy_string o (f.heap p)) k
      ∙ ap (proxy_string e.opt) h

  -- The state in which the proxy is tried.
  abbrev pub Tried : ℕ → Moment P L M → ℕ → Engine P L M → Engine P L M → Type 0
  Tried p moment count e g =
      (inner_round shuffle world network addr moment count e
        ≡ try_proxy world network addr count p g)
      × (proxy_string g.opt (g.heap p) ≡ proxy_string e.opt (e.heap p))
      × (g.opt ≡ e.opt)

  pub inner_round-tries :
      (moment : Moment P L M) (now p count : ℕ) (c : Channel) (rest : List ℕ) (e : Engine P L M)
      → IsCalm moment
      → Draws now c moment
      → CanDraw now p c rest e
      → (g : Engine P L M) × Tried p moment count e g
  unfolding inner_round pop_sock_and_lock after_draw after_pop
  inner_round-tries moment now p count c rest e calm d can =
      let (f, drawn, same, opts) =
        first_drawn shuffle d.others now p c d.lists d.draws rest e (rw (d.quiet e) can.open_engine)
          (rw (d.quiet e) can.front) (rw (d.quiet e) can.good) in
      let kept : f.heap p ≡ e.heap p = same ∙ ap (λ x. x.heap p) (d.quiet e) in
      let free : (f.heap p).lock ≡ unlocked = ap (λ s. s.lock) kept ∙ can.good.free in
      let popped : pop_sock_and_lock shuffle moment e ≡ (set_lock p locked f, holds p) =
        if_false (is_empty e) _ _ can.filled
        ∙ ap (after_draw shuffle moment) (ap (λ l. get_any_socks shuffle l e) d.passes ∙ drawn)
        ∙ if_false moment.cancelled _ _ calm.on_time.uncancelled
        ∙ locked_free p f free in
      (
        set_lock p locked f,
        (
          rw (unticked moment.now e can.no_tick, inner_round)
              (ap (after_pop shuffle world network addr count) popped),
          relocked_name p e f kept (opts ∙ ap (λ x. x.opt) (d.quiet e)),
          opts ∙ ap (λ x. x.opt) (d.quiet e),
        ),
      )

  -- What follows a round.
  unfoldable pub go_on : List (Moment P L M) → Engine P L M × Next → Engine P L M × Outcome
  go_on schedule r = elim r.1 [
    | goes place ↦ dial_from shuffle world network addr schedule place r.0
    | ends outcome ↦ (r.0, outcome)
  ]

  pub go_on-ends :
      (schedule : List (Moment P L M)) (r : Engine P L M × Next) (o : Outcome)
      → r.1 ≡ ends o
      → (go_on schedule r).1 ≡ o
  unfolding go_on
  go_on-ends schedule r o h = rw (h, go_on) refl

  pub next_round :
      (moment : Moment P L M) (schedule : List (Moment P L M)) (place : Place) (e : Engine P L M)
      → dial_from shuffle world network addr (moment ∷ schedule) place e
        ≡ go_on schedule (round shuffle world network addr moment place (moment.others e))
  unfolding dial_from go_on
  next_round moment schedule place e = refl

  pub go_on-goes :
      (schedule : List (Moment P L M)) (r : Engine P L M × Next) (place : Place)
      → r.1 ≡ goes place
      → go_on schedule r ≡ dial_from shuffle world network addr schedule place r.0
  unfolding go_on
  go_on-goes schedule r place h = rw (h, go_on) refl

  pub calm_round :
      (moment : Moment P L M) (schedule : List (Moment P L M)) (place : Place) (e : Engine P L M)
      → IsCalm moment
      → dial_from shuffle world network addr (moment ∷ schedule) place e
        ≡ go_on schedule (round shuffle world network addr moment place e)
  unfolding dial_from go_on
  calm_round moment schedule place e calm =
      ap (λ x. go_on schedule (round shuffle world network addr moment place x)) (calm.quiet e)

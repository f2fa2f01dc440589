-- ===== src/System/Dials.antt =====
-- A dial as a history of steps, and what comes of it in a state with the invariant, whatever the others
-- do between its rounds.
use mathlib.Core.List.{Perm}
use prox.Base.{
  Option, none, some, ℕ, ◌≡◌, refl, ap, Bool, true, false, List, inl, inr, Option-cases,
  if◌then◌else◌, pos, ltb_ℤ,
}
use prox.Text.{Bytes}
use prox.Scaler.{Ants}
use prox.Scaler.Bounds.{IsTunable}
use prox.Engine.{Engine, Limiter, Plot}
use prox.Engine.Options.{get_dialer_bailout}
use prox.Daemons.MapLaws.{PlotLaws}
use prox.Dialer
use prox.Dialer.{
  Alarm, context_done, engine_closed, connections_killed, Failure, no_proxies, gave_up, alarmed,
  unknown_protocol, Outcome, connected, failed, panicked, unfinished, Popped, pop_failed, nothing,
  holds, pop_panicked, pop_unfinished, Outside, Moment, Place, outer, inner, Next, goes, ends,
  heard, first_alarm, lock_or_requeue, outer_round, tell, dial_with, answered, try_proxy,
  after_draw, pop_sock_and_lock, after_pop, inner_round, round, dial_from, mystery_dialer,
}
use prox.System.{Internet, Reach, unmoved, moved, signals, dials}
use prox.System.Sound.{IsSound, Belongs, Belongs-Spoke, Advances-Belongs}
use prox.System.Steps.{Reach-Safe}
use prox.System.Histories.{Reach-trans, Reach-IsSound}
use prox.System.Pops.{IsSteady, IsListed, Pops, ticked, pop_sock_and_lock-Pops}

module _ (world : Outside) where
  -- How a try of a proxy ends: it goes on, or the proxy of the middleware is connected, or the middleware
  -- has answered with nil.
  Tried : ℕ → Next → Type 0
  Tried p (ends (connected q)) = world.middleware p ≡ (some q, true)
  Tried p (ends panicked) = (world.middleware p).0 ≡ none
  Tried p (ends _) = ⊥
  Tried p (goes place) = Unit

module _ ⦃internet : Internet⦄ {P L M : Type 0} (world : Outside) where
  -- How a dial may end: with a connection through what the middleware made of such a proxy, or with an
  -- error; it panics only if the middleware made nil of such a proxy, and meets no proxy whose protocol is unknown.
  abbrev pub Fair : Engine P L M → Outcome → Type 0
  Fair e (connected q) = (p : ℕ) × IsListed e p × (world.middleware p ≡ (some q, true))
  Fair e (failed unknown_protocol) = ⊥
  Fair e (failed _) = Unit
  Fair e panicked = (p : ℕ) × IsListed e p × ((world.middleware p).0 ≡ none)
  Fair e unfinished = Unit

  abbrev pub FairNext : Engine P L M × Next → Type 0
  FairNext (f, goes place) = Unit
  FairNext (f, ends outcome) = Fair f outcome

module _ ⦃internet : Internet⦄ {P L M : Type 0} ⦃ants : Ants P⦄ ⦃limiter : Limiter L⦄
    ⦃plots : Plot M⦄ (shuffle : List (Bytes × ℕ) → List (Bytes × ℕ)) (tunable : IsTunable ants)
    (laws : PlotLaws plots) (permutes : (l : List (Bytes × ℕ)) → Perm (shuffle l) l)
    (world : Outside) (network addr : Bytes) where
  abbrev pub Goes : Engine P L M → Engine P L M × Next → Type 0
  Goes e r = Reach shuffle e r.0 × FairNext world r

  if-Goes :
      (b : Bool) (e : Engine P L M) (x y : Engine P L M × Next)
      → (b ≡ true → Goes e x)
      → (b ≡ false → Goes e y)
      → Goes e (if b then x else y)
  if-Goes true e x y h k = h refl
  if-Goes false e x y h k = k refl

  heard-Reach : (a : Alarm) (e : Engine P L M) → Reach shuffle e (heard a e)
  heard-Reach context_done e = unmoved
  heard-Reach engine_closed e = unmoved
  heard-Reach connections_killed e = moved unmoved (signals false refl)
  heard-Reach Dialer.timed_out e = unmoved

  outer_round-Goes :
      (moment : Moment P L M) (count : ℕ) (e : Engine P L M) → Goes e (outer_round moment count e)
  unfolding outer_round
  outer_round-Goes moment count e =
      if-Goes (ltb_ℤ (get_dialer_bailout e) (pos count)) e _ _ (λ over. (unmoved, tt))
        (λ under.
          if-Goes moment.cancelled e _ _ (λ done. (unmoved, tt))
            (λ alive. elim (Option-cases (first_alarm moment e moment.order)) [
              | inl silent ↦ rw (silent, outer_round) (unmoved, tt)
              | inr (a, rung) ↦ rw (rung, outer_round) (heard-Reach a e, tt)
            ]))

  dial_with-Tried :
      (socks : Bytes) (count p q : ℕ) (e : Engine P L M)
      → world.middleware p ≡ (some q, true)
      → Tried world p (dial_with world network addr socks count q e).1
  unfolding Tried dial_with
  dial_with-Tried socks count p q e passes =
      elim (Option-cases (world.socks_dial socks network addr)) [
        | inl done ↦ rw (done, dial_with) passes
        | inr (err, broken) ↦ rw (broken, dial_with) tt
      ]

  answered-Tried :
      (socks : Bytes) (count p : ℕ) (m : Option ℕ × Bool) (e : Engine P L M)
      → world.middleware p ≡ m
      → Tried world p (answered world network addr socks count m e).1
  unfolding Tried answered
  answered-Tried socks count p (some q, true) e h = dial_with-Tried socks count p q e h
  answered-Tried socks count p (some q, false) e h = tt
  answered-Tried socks count p (none, true) e h = ap (λ m. m.0) h
  answered-Tried socks count p (none, false) e h = ap (λ m. m.0) h

  try_proxy-Tried :
      (count p : ℕ) (e : Engine P L M) → Tried world p (try_proxy world network addr count p e).1
  unfolding Tried try_proxy
  try_proxy-Tried count p e = answered-Tried _ count p (world.middleware p) e refl

  Tried-Fair :
      (p : ℕ) (f : Engine P L M) (next : Next)
      → IsListed f p
      → Tried world p next
      → FairNext world (f, next)
  unfolding Tried
  Tried-Fair p f (goes place) l t = tt
  Tried-Fair p f (ends (connected q)) l t = (p, l, t)
  Tried-Fair p f (ends (failed why)) l t = absurd t
  Tried-Fair p f (ends panicked) l t = (p, l, t)
  Tried-Fair p f (ends unfinished) l t = absurd t

  after_pop-Goes :
      (count : ℕ) (e : Engine P L M) (r : Engine P L M × Popped)
      → IsSound tunable r.0
      → Pops shuffle tunable laws permutes e r
      → Goes e (after_pop shuffle world network addr count r)
  unfolding after_pop
  after_pop-Goes count e (f, pop_failed no_proxies) v (s, fair) = (s, tt)
  after_pop-Goes count e (f, pop_failed gave_up) v (s, fair) = (s, tt)
  after_pop-Goes count e (f, pop_failed (alarmed a)) v (s, fair) = (s, tt)
  after_pop-Goes count e (f, pop_failed unknown_protocol) v (s, fair) = absurd fair
  after_pop-Goes count e (f, nothing) v (s, fair) = (s, tt)
  after_pop-Goes count e (f, pop_panicked) v (s, fair) = absurd fair
  after_pop-Goes count e (f, pop_unfinished) v (s, fair) = (s, tt)
  after_pop-Goes count e (f, holds p) v (s, (c, b, _)) =
      let g : Engine P L M = (try_proxy world network addr count p f).0 in
      let t : Reach shuffle f g = moved unmoved (dials world network addr count p refl) in
      let (w, a) = Reach-Safe tunable laws shuffle permutes f g t v in
      let later : Belongs g c p = Advances-Belongs tunable f g v a c p b in
      (
        Reach-trans shuffle s t,
        Tried-Fair p g _ (c, later, Belongs-Spoke tunable g c p w later)
            (try_proxy-Tried count p f),
      )

  inner_round-Goes :
      (moment : Moment P L M) (count : ℕ) (e : Engine P L M)
      → IsSteady shuffle tunable laws permutes moment
      → IsSound tunable e
      → Goes e (inner_round shuffle world network addr moment count e)
  unfolding inner_round
  inner_round-Goes moment count e steady v =
      let (r, done, s) = ticked shuffle tunable laws permutes moment.now e v in
      let w : IsSound tunable r.0 = Reach-IsSound shuffle tunable laws permutes s v in
      let (t, fair) = pop_sock_and_lock-Pops shuffle tunable laws permutes moment r.0 steady w in
      let (u, next) =
        after_pop-Goes count r.0 (pop_sock_and_lock shuffle moment r.0)
          (Reach-IsSound shuffle tunable laws permutes t w) (t, fair) in
      rw (done, inner_round) (Reach-trans shuffle s u, next)

  pub round-Goes :
      (moment : Moment P L M) (place : Place) (e : Engine P L M)
      → IsSteady shuffle tunable laws permutes moment
      → IsSound tunable e
      → Goes e (round shuffle world network addr moment place e)
  round-Goes moment (outer count) e steady v = outer_round-Goes moment count e
  round-Goes moment (inner count) e steady v = inner_round-Goes moment count e steady v

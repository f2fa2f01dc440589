-- ===== src/System/Strings.antt =====
-- Whole calls of getSocksStr, whatever the others do between their rounds.
use mathlib.Core.List.{Perm, Memᴰ}
use prox.Base.{ℕ, ◌≡◌, refl, List, [], ◌∷◌, Option, none, some, inl, inr, All}
use prox.Text.{Bytes}
use prox.Scaler.{Ants}
use prox.Scaler.Bounds.{IsTunable}
use prox.Debug.{Debug}
use prox.Engine.{Engine, Limiter, Plot, def_opt, engine_with}
use prox.Engine.Lists.{Channel}
use prox.Daemons.MapLaws.{PlotLaws}
use prox.Dispense.{get_socks_round, get_socks_str}
use prox.Dialer.Heap.{round_cases}
use prox.System.{Internet, Reach, unmoved, moved, hands_out}
use prox.System.Sound.{IsSound}
use prox.System.Reached.{reached-IsSound}
use prox.System.Handed.{Offers, round-Offers}
use prox.System.Histories.{Reach-trans, IsHistory, Reach-IsSound}

module _ ⦃internet : Internet⦄ {P L M : Type 0} ⦃ants : Ants P⦄ ⦃limiter : Limiter L⦄
    ⦃plots : Plot M⦄ (tunable : IsTunable ants) (laws : PlotLaws plots)
    (shuffle : List (Bytes × ℕ) → List (Bytes × ℕ))
    (permutes : (l : List (Bytes × ℕ)) → Perm (shuffle l) l) where
  -- A call that starts in `e` with rounds at some times: it leaves a state that can be reached, and what it
  -- hands out was on offer at the time of a round, in a state on the way.
  abbrev pub Strings : Channel → List ℕ → Engine P L M → Engine P L M × Option Bytes → Type 0
  Strings c times e (f, none) = Reach shuffle e f
  Strings c times e (f, some endpoint) =
      (g : Engine P L M) × (now : ℕ) × Memᴰ now times
      × Reach shuffle e g
      × Reach shuffle g f
      × Offers c now g endpoint

  abbrev pub times_of : List ((Engine P L M → Engine P L M) × ℕ) → List ℕ
  times_of [] = []
  times_of (round ∷ schedule) = round.1 ∷ times_of schedule

  since_step :
      (c : Channel) (now : ℕ) (times : List ℕ) (e f : Engine P L M)
      (r : Engine P L M × Option Bytes)
      → Reach shuffle e f
      → Strings c times f r
      → Strings c (now ∷ times) e r
  since_step c now times e f (g, none) s t = Reach-trans shuffle s t
  since_step c now times e f (g, some endpoint) s (h, at_time, m, t, u, offers) =
      (h, at_time, Memᴰ.tail m, Reach-trans shuffle s t, u, offers)

  since_start :
      (c : Channel) (times : List ℕ) (e f : Engine P L M) (r : Engine P L M × Option Bytes)
      → Reach shuffle e f
      → Strings c times f r
      → Strings c times e r
  since_start c times e f (g, none) s t = Reach-trans shuffle s t
  since_start c times e f (g, some endpoint) s (h, now, m, t, u, offers) =
      (h, now, m, Reach-trans shuffle s t, u, offers)

  get_socks_str-Strings :
      (c : Channel) (schedule : List ((Engine P L M → Engine P L M) × ℕ)) (e : Engine P L M)
      → All (λ d. IsHistory shuffle tunable laws permutes d.0) schedule
      → IsSound tunable e
      → Strings c (times_of schedule) e (get_socks_str shuffle c schedule e)
  unfolding get_socks_str
  get_socks_str-Strings c [] e steady v = unmoved
  get_socks_str-Strings c ((others, now) ∷ schedule) e steady v =
      let f : Engine P L M = others e in
      let g : Engine P L M = (get_socks_round shuffle c now f).0 in
      let r : Reach shuffle e f = steady.0 e v in
      let w : IsSound tunable f = Reach-IsSound shuffle tunable laws permutes r v in
      let s : Reach shuffle f g = moved unmoved (hands_out c now refl) in
      elim (round_cases (get_socks_round shuffle c now f).1) [
        | inl more ↦
            let t =
              get_socks_str-Strings c schedule g steady.1
                (Reach-IsSound shuffle tunable laws permutes s w) in
            rw (more, get_socks_str)
              (since_step c now (times_of schedule) e g _ (Reach-trans shuffle r s) t)
        | inr (endpoint, given) ↦
            rw (given, get_socks_str)
              (
                f,
                now,
                Memᴰ.head refl,
                r,
                s,
                round-Offers tunable laws shuffle permutes c now f w given,
              )
      ]

  -- A call of getSocksStr in any state that the engine can reach from its start around a pool of the
  -- default capacity, with whatever histories of steps the others make between its rounds: the engine is
  -- again in such a state, and an endpoint that it hands out is that of a proxy which, in a state on the
  -- way and at the time of a round, existed, had the protocol that was asked for, and was good; and the
  -- check of that protocol on that endpoint succeeds, with some options, on one of the networks that the
  -- history may meet. The random source must permute what it shuffles, and a round of
  -- getSocksStr, with its test of the list and the removal, is one step.
  pub handed_out :
      (start : ℕ) (debug : Debug) (pool : P)
      → ants.cap pool ≡ def_opt.max_workers
      → {e : Engine P L M} → Reach shuffle (engine_with start debug pool) e
      → (c : Channel) (schedule : List ((Engine P L M → Engine P L M) × ℕ))
      → All (λ d. IsHistory shuffle tunable laws permutes d.0) schedule
      → Strings c
          (times_of schedule)
          (engine_with start debug pool)
          (get_socks_str shuffle c schedule e)
  handed_out start debug pool h {e} r c schedule steady =
      since_start c (times_of schedule) (engine_with start debug pool) e _ r (
        get_socks_str-Strings c schedule e steady
          (reached-IsSound tunable laws shuffle permutes start debug pool h r))

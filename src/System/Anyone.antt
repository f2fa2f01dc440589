-- ===== src/System/Anyone.antt =====
-- Whole calls of GetAnySOCKS, whatever the others do between their rounds.
use mathlib.Core.List.{Perm, Memᴰ}
use prox.Base.{
  ℕ, ◌≡◌, refl, Bool, true, false, List, [], ◌∷◌, Option, none, some, inl, inr, All, if◌then◌else◌,
}
use prox.Text.{Bytes}
use prox.Scaler.{Ants}
use prox.Scaler.Bounds.{IsTunable}
use prox.Debug.{Debug}
use prox.Engine.{Engine, Limiter, Plot, def_opt, engine_with}
use prox.Engine.Counters.{dispense}
use prox.Engine.Lists.{Channel}
use prox.Daemons.MapLaws.{PlotLaws}
use prox.Dispense.{get_any_lists, get_any_socks}
use prox.Dispense.Policy.{IsGood}
use prox.Dispense.Any.{get_any_lists-IsGood}
use prox.Dialer.Heap.{round_cases}
use prox.System.{Internet, Spoke, Reach, unmoved, moved, hands_any, logs}
use prox.System.Sound.{IsSound, Belongs, Belongs-Spoke}
use prox.System.Reached.{reached-IsSound}
use prox.System.Handed.{get_any_lists-Belongs}
use prox.System.Histories.{Reach-trans, IsHistory, Reach-IsSound}

module _ ⦃internet : Internet⦄ {P L M : Type 0} ⦃ants : Ants P⦄ ⦃limiter : Limiter L⦄
    ⦃plots : Plot M⦄ (tunable : IsTunable ants) (laws : PlotLaws plots)
    (shuffle : List (Bytes × ℕ) → List (Bytes × ℕ))
    (permutes : (l : List (Bytes × ℕ)) → Perm (shuffle l) l) where
  -- The lists of a round, in their order, and its time.
  abbrev pub rounds_of :
      List ((Engine P L M → Engine P L M) × List Channel × ℕ) → List (List Channel × ℕ)
  rounds_of [] = []
  rounds_of ((others, lists, now) ∷ schedule) = (lists, now) ∷ rounds_of schedule

  -- A proxy that a round over some lists at some time may hand out in a state.
  pub record Offered (rounds : List (List Channel × ℕ)) (p : ℕ) (g : Engine P L M) : Type 0 where
    pub now : ℕ
    pub lists : List Channel
    pub list : Channel
    pub in_round : Memᴰ (lists, now) rounds
    pub in_lists : Memᴰ list lists
    pub belongs : Belongs g list p
    pub spoke : Spoke (g.heap p).endpoint (g.heap p).protocol.value
    pub good : IsGood now p g

  -- A call that starts in `e`: it leaves a state that can be reached; what it hands out was on offer in a
  -- state on the way, and it hands out nothing only at its end or when the context was done.
  abbrev pub AnyOne :
      List (List Channel × ℕ) → Engine P L M → Engine P L M × Option (Option ℕ) → Type 0
  AnyOne rounds e (f, none) = Reach shuffle e f
  AnyOne rounds e (f, some none) = Reach shuffle e f × (f.ctx_done ≡ true)
  AnyOne rounds e (f, some (some p)) =
      (g : Engine P L M) × Reach shuffle e g × Reach shuffle g f × Offered rounds p g

  any_step :
      (round : List Channel × ℕ) (rounds : List (List Channel × ℕ)) (e f : Engine P L M)
      (r : Engine P L M × Option (Option ℕ))
      → Reach shuffle e f
      → AnyOne rounds f r
      → AnyOne (round ∷ rounds) e r
  any_step round rounds e f (g, none) s t = Reach-trans shuffle s t
  any_step round rounds e f (g, some none) s (t, done) = (Reach-trans shuffle s t, done)
  any_step round rounds e f (g, some (some p)) s (h, t, u, o) = (
    h,
    Reach-trans shuffle s t,
    u,
    record {
      now = o.now;
      lists = o.lists;
      list = o.list;
      in_round = Memᴰ.tail o.in_round;
      in_lists = o.in_lists;
      belongs = o.belongs;
      spoke = o.spoke;
      good = o.good;
    },
  )

  any_start :
      (rounds : List (List Channel × ℕ)) (e f : Engine P L M) (r : Engine P L M × Option (Option ℕ))
      → Reach shuffle e f
      → AnyOne rounds f r
      → AnyOne rounds e r
  any_start rounds e f (g, none) s t = Reach-trans shuffle s t
  any_start rounds e f (g, some none) s (t, done) = (Reach-trans shuffle s t, done)
  any_start rounds e f (g, some (some p)) s (h, t, u, o) = (h, Reach-trans shuffle s t, u, o)

  if-AnyOne :
      (rounds : List (List Channel × ℕ)) (b : Bool) (e : Engine P L M)
      (x y : Engine P L M × Option (Option ℕ))
      → (b ≡ true → AnyOne rounds e x)
      → AnyOne rounds e y
      → AnyOne rounds e (if b then x else y)
  if-AnyOne rounds true e x y h k = h refl
  if-AnyOne rounds false e x y h k = k

  get_any_socks-AnyOne :
      (schedule : List ((Engine P L M → Engine P L M) × List Channel × ℕ)) (e : Engine P L M)
      → All (λ d. IsHistory shuffle tunable laws permutes d.0) schedule
      → IsSound tunable e
      → AnyOne (rounds_of schedule) e (get_any_socks shuffle schedule e)
  unfolding get_any_socks
  get_any_socks-AnyOne [] e steady v = unmoved
  get_any_socks-AnyOne ((others, lists, now) ∷ schedule) e steady v =
      let f : Engine P L M = others e in
      let g : Engine P L M = (get_any_lists shuffle now lists f).0 in
      let r : Reach shuffle e f = steady.0 e v in
      let w : IsSound tunable f = Reach-IsSound shuffle tunable laws permutes r v in
      let s : Reach shuffle f g = moved unmoved (hands_any now lists refl) in
      if-AnyOne ((lists, now) ∷ rounds_of schedule) f.ctx_done e _ _
        (λ done. (moved r (logs f.debug (dispense f.stats) refl), done))
        (elim (round_cases (get_any_lists shuffle now lists f).1) [
          | inl more ↦
              let t =
                get_any_socks-AnyOne schedule g steady.1
                  (Reach-IsSound shuffle tunable laws permutes s w) in
              rw (more, get_any_socks)
                (any_step (lists, now) (rounds_of schedule) e g _ (Reach-trans shuffle r s) t)
          | inr (p, given) ↦
              let (c, m, b) =
                get_any_lists-Belongs tunable laws shuffle permutes now p lists f w given in
              rw (given, get_any_socks)
                (
                  f,
                  r,
                  moved s (logs g.debug (dispense g.stats) refl),
                  record {
                    now = now;
                    lists = lists;
                    list = c;
                    in_round = Memᴰ.head refl;
                    in_lists = m;
                    belongs = b;
                    spoke = Belongs-Spoke tunable f c p w b;
                    good = get_any_lists-IsGood shuffle now p lists f given;
                  },
                )
        ])

  -- A call of GetAnySOCKS in any state that the engine can reach from its start around a pool of the
  -- default capacity, with whatever histories of steps the others make between its rounds: the engine is
  -- again in such a state; the call returns nil only with the engine's context done; and a proxy that it
  -- hands out, in a state on the way, existed, had the protocol of one of the lists of a round, and was good
  -- at the time of that round; and the check of that protocol on its endpoint succeeds, with some
  -- options, on one of the networks that the history may meet. The random source must permute what it shuffles, and
  -- a pass over the lists is one step.
  pub any_offered :
      (start : ℕ) (debug : Debug) (pool : P)
      → ants.cap pool ≡ def_opt.max_workers
      → {e : Engine P L M} → Reach shuffle (engine_with start debug pool) e
      → (schedule : List ((Engine P L M → Engine P L M) × List Channel × ℕ))
      → All (λ d. IsHistory shuffle tunable laws permutes d.0) schedule
      → AnyOne
          (rounds_of schedule)
          (engine_with start debug pool)
          (get_any_socks shuffle schedule e)
  any_offered start debug pool h {e} r schedule steady =
      any_start (rounds_of schedule) (engine_with start debug pool) e _ r (
        get_any_socks-AnyOne schedule e steady
          (reached-IsSound tunable laws shuffle permutes start debug pool h r))

-- ===== src/Dialer/Options.antt =====
-- A dial leaves the options alone.
use prox.Base.{
  ℕ, ◌≡◌, refl, ◌∙◌, Bool, true, false, List, [], ◌∷◌, Option, none, some, arith, if◌then◌else◌,
  All, Bool-cases, Option-cases, inl, inr,
}
use prox.Text.{Bytes}
use prox.Scaler.{Ants}
use prox.Engine.{Engine, Limiter, Plot}
use prox.Engine.Counters.{get_total_bad, is_empty}
use prox.Engine.Lists.{Channel, dequeue, enqueue}
use prox.Engine.Store.{store, set_lock}
use prox.Scale.{scale, scale_pool, with_outcome, account, scale_dbg}
use prox.Dispense.{Round, still_good, get_any_lists, get_any_socks}
use prox.Dispense.Policy.{still_good-SameTests}
use prox.Dialer.Heap.{round_cases}
use prox.Dialer.{
  Outside, Moment, Place, outer, inner, Popped, holds, outer_round, inner_round, round,
  lock_or_requeue, after_draw, pop_sock_and_lock, after_pop, try_proxy, dial_with,
}

module _ {P L M : Type 0} where
  -- The others leave the options alone.
  pub record IsSteady (moment : Moment P L M) : Type 0 where
    pub outside : (e : Engine P L M) → (moment.others e).opt ≡ e.opt
    pub draws : All (λ d. (e : Engine P L M) → (d.0 e).opt ≡ e.opt) moment.draws

if-opt :
    {P L M A : Type 0} (b : Bool) (x y : Engine P L M × A) (e : Engine P L M)
    → x.0.opt ≡ e.opt
    → y.0.opt ≡ e.opt
    → (if b then x else y).0.opt ≡ e.opt
if-opt true x y e h k = h
if-opt false x y e h k = k

module _ {P L M : Type 0} ⦃ants : Ants P⦄ ⦃limiter : Limiter L⦄ ⦃plots : Plot M⦄
    (shuffle : List (Bytes × ℕ) → List (Bytes × ℕ)) where
  dequeue-opt : (c : Channel) (e : Engine P L M) → (dequeue c e).0.opt ≡ e.opt
  unfolding dequeue
  dequeue-opt c e = refl

  get_any_lists-opt :
      (now : ℕ) (lists : List Channel) (e : Engine P L M)
      → (get_any_lists shuffle now lists e).0.opt ≡ e.opt
  unfolding get_any_lists
  get_any_lists-opt now [] e = refl
  get_any_lists-opt now (c ∷ lists) e = elim (Option-cases (dequeue c e).1) [
    | inl empty ↦ rw (empty, get_any_lists) (get_any_lists-opt now lists e)
    | inr (p, front) ↦
        let f : Engine P L M = (dequeue c e).0 in
        let kept : (still_good now p f).0.opt ≡ e.opt =
          (still_good-SameTests now p f).opt ∙ dequeue-opt c e in
        elim (Bool-cases (still_good now p f).1) [
          | inl good ↦ rw (front, good, get_any_lists) kept
          | inr bad ↦
              rw (front, bad, get_any_lists)
                (get_any_lists-opt now lists (still_good now p f).0 ∙ kept)
        ]
  ]

  get_any_socks-opt :
      (schedule : List ((Engine P L M → Engine P L M) × List Channel × ℕ)) (e : Engine P L M)
      → All (λ d. (e : Engine P L M) → (d.0 e).opt ≡ e.opt) schedule
      → (get_any_socks shuffle schedule e).0.opt ≡ e.opt
  unfolding get_any_socks
  get_any_socks-opt [] e q = refl
  get_any_socks-opt ((others, lists, now) ∷ schedule) e q =
      let f : Engine P L M = others e in
      let g : Engine P L M × Round ℕ = get_any_lists shuffle now lists f in
      let kept : g.0.opt ≡ e.opt = get_any_lists-opt now lists f ∙ q.0 e in
      if-opt f.ctx_done _ _ e (q.0 e) (elim (round_cases g.1) [
        | inl more ↦ rw (more, get_any_socks) (get_any_socks-opt schedule g.0 q.1 ∙ kept)
        | inr (p, found) ↦ rw (found, get_any_socks) kept
      ])

  scale-opt :
      (now : ℕ) (e f : Engine P L M) (sleep : Bool) → scale now e ≡ some (f, sleep) → f.opt ≡ e.opt
  unfolding scale scale_pool with_outcome account scale_dbg get_total_bad
  scale-opt now e f sleep h = ground arith

  lock_or_requeue-opt : (p : ℕ) (e : Engine P L M) → (lock_or_requeue p e).0.opt ≡ e.opt
  unfolding lock_or_requeue set_lock store enqueue
  lock_or_requeue-opt p e = ground arith

  after_draw-opt :
      (moment : Moment P L M) (e : Engine P L M) (drawn : Option (Option ℕ))
      → (after_draw shuffle moment (e, drawn)).0.opt ≡ e.opt
  unfolding after_draw
  after_draw-opt moment e none = refl
  after_draw-opt moment e (some none) = ground arith
  after_draw-opt moment e (some (some p)) = ground (arith, lock_or_requeue-opt p e)

  pop_sock_and_lock-opt :
      (moment : Moment P L M) (e : Engine P L M)
      → IsSteady moment
      → (pop_sock_and_lock shuffle moment e).0.opt ≡ e.opt
  unfolding pop_sock_and_lock
  pop_sock_and_lock-opt moment e steady =
      if-opt (is_empty e) _ _ e
        (elim (Option-cases (scale moment.now e)) [
          | inl panic ↦ rw panic refl
          | inr ((f, sleep), done) ↦ rw done (scale-opt moment.now e f sleep done)
        ])
        (after_draw-opt moment _ _ ∙ get_any_socks-opt moment.draws e steady.draws)

  module _ (world : Outside) (network addr : Bytes) where
    try_proxy-opt :
        (count p : ℕ) (e : Engine P L M) → (try_proxy world network addr count p e).0.opt ≡ e.opt
    unfolding try_proxy dial_with set_lock store
    try_proxy-opt count p e = ground arith

    outer_round-opt :
        (moment : Moment P L M) (count : ℕ) (e : Engine P L M)
        → (outer_round moment count e).0.opt ≡ e.opt
    unfolding outer_round
    outer_round-opt moment count e = ground arith

    after_pop-opt :
        (count : ℕ) (r : Engine P L M × Popped)
        → (after_pop shuffle world network addr count r).0.opt ≡ r.0.opt
    unfolding after_pop
    after_pop-opt count (e, holds p) = try_proxy-opt count p e
    after_pop-opt count (e, _) = refl

    inner_round-opt :
        (moment : Moment P L M) (count : ℕ) (e : Engine P L M)
        → IsSteady moment
        → (inner_round shuffle world network addr moment count e).0.opt ≡ e.opt
    unfolding inner_round
    inner_round-opt moment count e steady = elim (Option-cases (scale moment.now e)) [
      | inl panic ↦ rw (panic, inner_round) refl
      | inr ((f, sleep), done) ↦
          rw (done, inner_round)
            (after_pop-opt count (pop_sock_and_lock shuffle moment f)
              ∙ pop_sock_and_lock-opt moment f steady
              ∙ scale-opt moment.now e f sleep done)
    ]

    pub round-opt :
        (moment : Moment P L M) (place : Place) (e : Engine P L M)
        → IsSteady moment
        → (round shuffle world network addr moment place e).0.opt ≡ e.opt
    round-opt moment (outer count) e steady = outer_round-opt moment count e
    round-opt moment (inner count) e steady = inner_round-opt moment count e steady

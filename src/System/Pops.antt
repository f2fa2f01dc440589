-- ===== src/System/Pops.antt =====
-- popSockAndLockIt as a history of steps, and what comes of it in a state with the invariant, whatever the
-- others do between the rounds of GetAnySOCKS.
use mathlib.Core.List.{Perm}
use prox.Base.{
  ℕ, ◌≡◌, ap, sym, subst, Bool, true, false, List, Option, none, some, inl, inr, All, Bool-cases,
  if◌then◌else◌,
}
use prox.Text.{Bytes}
use prox.Proxy.{locked, is_unlocked, get_proto, get}
use prox.Scaler.{Ants}
use prox.Scaler.Bounds.{IsTunable}
use prox.Engine.{Engine, Limiter, Plot}
use prox.Engine.Counters.{is_empty}
use prox.Engine.Lists.{Channel, enqueue}
use prox.Daemons.MapLaws.{PlotLaws}
use prox.Scale.{scale}
use prox.Dialer.{
  unknown_protocol, Popped, pop_failed, nothing, holds, pop_panicked, pop_unfinished, Moment,
  lock_or_requeue, after_draw, pop_sock_and_lock,
}
use prox.System.{Internet, Spoke, Reach, unmoved, moved, ticks, takes}
use prox.Engine.Store.{set_lock}
use prox.System.Sound.{
  IsSound, Belongs, Belongs-Spoke, Advances-Belongs, Framed-Safe, set_lock-Framed,
}
use prox.System.Turns.{scale-Safe}
use prox.System.Histories.{Reach-trans, IsHistory, Reach-IsSound, Drawn, get_any_socks-Draws}

module _ ⦃internet : Internet⦄ {P L M : Type 0} where
  -- A proxy that the engine knows, whose protocol has a list, and on whose endpoint the check of
  -- that protocol succeeds.
  abbrev pub IsListed : Engine P L M → ℕ → Type 0
  IsListed e p = (c : Channel) × Belongs e c p × Spoke (e.heap p).endpoint (e.heap p).protocol.value

  -- What popSockAndLockIt may give back.
  abbrev pub FairPop : Engine P L M × Popped → Type 0
  FairPop (f, holds p) = IsListed f p
  FairPop (f, pop_failed unknown_protocol) = ⊥
  FairPop (f, pop_failed _) = Unit
  FairPop (f, pop_panicked) = ⊥
  FairPop (f, nothing) = Unit
  FairPop (f, pop_unfinished) = Unit

module _ ⦃internet : Internet⦄ {P L M : Type 0} ⦃ants : Ants P⦄ ⦃limiter : Limiter L⦄
    ⦃plots : Plot M⦄ (shuffle : List (Bytes × ℕ) → List (Bytes × ℕ)) (tunable : IsTunable ants)
    (laws : PlotLaws plots) (permutes : (l : List (Bytes × ℕ)) → Perm (shuffle l) l) where
  -- What the others do at a moment is a history of steps.
  pub record IsSteady (moment : Moment P L M) : Type 0 where
    pub outside : IsHistory shuffle tunable laws permutes moment.others
    pub draws : All (λ d. IsHistory shuffle tunable laws permutes d.0) moment.draws

  abbrev pub Pops : Engine P L M → Engine P L M × Popped → Type 0
  Pops e r = Reach shuffle e r.0 × FairPop r

  if-Pops :
      (b : Bool) (e : Engine P L M) (x y : Engine P L M × Popped)
      → Pops e x
      → Pops e y
      → Pops e (if b then x else y)
  if-Pops true e x y h k = h
  if-Pops false e x y h k = k

  -- A proxy on a list is locked, or goes back to its list.
  lock_or_requeue-Pops :
      (p : ℕ) (e : Engine P L M) → IsSound tunable e → IsListed e p → Pops e (lock_or_requeue p e)
  unfolding lock_or_requeue get_proto get
  lock_or_requeue-Pops p e v (c, b, spoke) = elim (Bool-cases (is_unlocked (e.heap p).lock)) [
    | inl free ↦
        let f : Engine P L M = set_lock p locked e in
        let (w, a) = Framed-Safe tunable e f (set_lock-Framed p locked e) v in
        let taken : lock_or_requeue p e ≡ (f, holds p) = rw free in
        subst (Pops e) (sym taken) (
          moved unmoved (takes p b.0 (sym (ap (λ r. r.0) taken))),
          (let later : Belongs f c p = Advances-Belongs tunable e f v a c p b in
              (c, later, Belongs-Spoke tunable f c p w later)),
        )
    | inr held ↦
        let back : lock_or_requeue p e ≡ (enqueue c p e, nothing) =
          rw (held, b.1, lock_or_requeue) in
        subst (Pops e) (sym back) (moved unmoved (takes p b.0 (sym (ap (λ r. r.0) back))), tt)
  ]

  after_draw-Pops :
      (moment : Moment P L M) (e : Engine P L M) (r : Engine P L M × Option (Option ℕ))
      → IsSound tunable r.0
      → Reach shuffle e r.0
      → Drawn shuffle tunable laws permutes r
      → Pops e (after_draw shuffle moment r)
  unfolding after_draw
  after_draw-Pops moment e (f, none) v s d = (s, tt)
  after_draw-Pops moment e (f, some none) v s d = if-Pops moment.cancelled e _ _ (s, tt) (s, tt)
  after_draw-Pops moment e (f, some (some p)) v s d =
      let (t, fair) = lock_or_requeue-Pops p f v (d.0, d.1, Belongs-Spoke tunable f d.0 p v d.1) in
      if-Pops moment.cancelled e _ _ (s, tt) (Reach-trans shuffle s t, fair)

  -- A tick of the scaler, which does not panic.
  pub ticked :
      (now : ℕ) (e : Engine P L M)
      → IsSound tunable e
      → (r : Engine P L M × Bool) × (scale now e ≡ some r) × Reach shuffle e r.0
  ticked now e v =
      let (r, done, w, a) = scale-Safe tunable now e v in
      (r, done, moved unmoved (ticks now r.1 done))

  pub pop_sock_and_lock-Pops :
      (moment : Moment P L M) (e : Engine P L M)
      → IsSteady moment
      → IsSound tunable e
      → Pops e (pop_sock_and_lock shuffle moment e)
  unfolding pop_sock_and_lock
  pop_sock_and_lock-Pops moment e steady v =
      let (r, done, s) = ticked moment.now e v in
      let (t, drawn) =
        get_any_socks-Draws shuffle tunable laws permutes moment.draws e steady.draws v in
      if-Pops (is_empty e) e _ _ (rw (done, pop_sock_and_lock) (s, tt))
        (after_draw-Pops moment e _ (Reach-IsSound shuffle tunable laws permutes t v) t drawn)

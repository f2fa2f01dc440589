-- ===== src/Dialer/Locks.antt =====
-- A dial leaves the proxies of the pool as it finds them.
use prox.Base.{
  ℕ, ◌≡◌, refl, ap, fun_ext, sym, ◌∙◌, Bool, true, false, List, [], ◌∷◌, Option, none, some, arith,
  if◌then◌else◌, All, Bool-cases, Option-cases, inl, inr,
}
use prox.Text.{Bytes}
use prox.Proxy.{Proxy, Lock, unlocked, locked, is_unlocked, get_proto}
use prox.Scaler.{Ants}
use prox.Engine.{Engine, Limiter, Plot, update}
use prox.Engine.Counters.{is_empty}
use prox.Engine.Lists.{channel_of, enqueue}
use prox.Engine.Store.{store, set_lock, update_self}
use prox.Scale.{scale}
use prox.Dialer.{
  answered, Outside, Moment, Place, outer, inner, Next, Popped, holds, outer_round, inner_round,
  round, dial_from, lock_or_requeue, after_draw, pop_sock_and_lock, after_pop, try_proxy, dial_with,
}
use prox.Dialer.Heap.{SameHeap, IsQuiet, get_any_socks-SameHeap, scale-SameHeap, next_cases}

module _ {P L M : Type 0} ⦃ants : Ants P⦄ ⦃limiter : Limiter L⦄ ⦃plots : Plot M⦄
    (shuffle : List (Bytes × ℕ) → List (Bytes × ℕ)) where
  -- What popping does to the proxies: nothing, but for the lock of the proxy that it returns, which
  -- was free.
  PopKeeps : Engine P L M → Engine P L M × Popped → Type 0
  PopKeeps e (f, holds p) =
      ((e.heap p).lock ≡ unlocked)
      × ((a : ℕ) → f.heap a ≡ update e.heap p (record (e.heap p) { lock = locked }) a)
  PopKeeps e (f, _) = SameHeap e f

  PopKeeps-if :
      (b : Bool) (x y : Engine P L M × Popped) (e : Engine P L M)
      → PopKeeps e x
      → PopKeeps e y
      → PopKeeps e (if b then x else y)
  PopKeeps-if true x y e h k = h
  PopKeeps-if false x y e h k = k

  lock_or_requeue-PopKeeps :
      (p : ℕ) (e f : Engine P L M) → SameHeap e f → PopKeeps e (lock_or_requeue p f)
  unfolding lock_or_requeue PopKeeps set_lock store enqueue
  lock_or_requeue-PopKeeps p e f same = elim (Bool-cases (is_unlocked (f.heap p).lock)) [
    | inl free ↦ rw free (
      ground (arith, same p),
      λ a. ap (λ h. update h p (record (h p) { lock = locked }) a) (fun_ext same),
    )
    | inr taken ↦ elim (Option-cases (channel_of (get_proto (f.heap p)))) [
      | inl unknown ↦ rw (taken, unknown) same
      | inr (c, known) ↦ rw (taken, known) same
    ]
  ]

  after_draw-PopKeeps :
      (moment : Moment P L M) (e f : Engine P L M) (drawn : Option (Option ℕ))
      → SameHeap e f
      → PopKeeps e (after_draw shuffle moment (f, drawn))
  unfolding after_draw PopKeeps
  after_draw-PopKeeps moment e f none same = same
  after_draw-PopKeeps moment e f (some none) same = PopKeeps-if moment.cancelled _ _ e same same
  after_draw-PopKeeps moment e f (some (some p)) same =
      PopKeeps-if moment.cancelled _ _ e same (lock_or_requeue-PopKeeps p e f same)

  pop_sock_and_lock-PopKeeps :
      (moment : Moment P L M) (e : Engine P L M)
      → IsQuiet moment
      → PopKeeps e (pop_sock_and_lock shuffle moment e)
  unfolding pop_sock_and_lock PopKeeps
  pop_sock_and_lock-PopKeeps moment e quiet =
      PopKeeps-if (is_empty e) _ _ e
        (elim (Option-cases (scale moment.now e)) [
          | inl panic ↦ rw panic (λ a. refl)
          | inr ((f, sleep), done) ↦ rw done (scale-SameHeap shuffle moment.now e f sleep done)
        ])
        (after_draw-PopKeeps moment e _ _
          (get_any_socks-SameHeap shuffle moment.draws e quiet.draws))

  module _ (world : Outside) (network addr : Bytes)
      (honest : (p : ℕ) → (world.middleware p).0 ≡ some p) where
    -- Releasing the lock that popping took gives the proxies back as they were.
    release-SameHeap :
        (p : ℕ) (e f : Engine P L M) → PopKeeps e (f, holds p) → SameHeap e (set_lock p unlocked f)
    unfolding PopKeeps set_lock store
    release-SameHeap p e f (free, held) a =
        let back : record (f.heap p) { lock = unlocked } ≡ e.heap p =
          ap (λ (s : Proxy). record s { lock = unlocked }) (held p ∙ update_self e.heap p _)
          ∙ ap (λ (l : Lock). record (e.heap p) { lock = l }) (sym free) in
        ground (arith, held a, back)

    dial_with-heap :
        (socks : Bytes) (count q : ℕ) (f : Engine P L M) (a : ℕ)
        → (dial_with world network addr socks count q f).0.heap a ≡ (set_lock q unlocked f).heap a
    unfolding dial_with set_lock store
    dial_with-heap socks count q f a = ground arith

    answered-SameHeap :
        (socks : Bytes) (count p : ℕ) (m : Option ℕ × Bool) (e f : Engine P L M)
        → m.0 ≡ some p
        → PopKeeps e (f, holds p)
        → SameHeap e (answered world network addr socks count m f).0
    unfolding answered
    answered-SameHeap socks count p (some q, true) e f same kept a =
        dial_with-heap _ count _ f a
        ∙ ap (λ r. (set_lock r unlocked f).heap a) (cc same)
        ∙ release-SameHeap p e f kept a
    answered-SameHeap socks count p (some q, false) e f same kept a =
        ap (λ r. (set_lock r unlocked f).heap a) (cc same) ∙ release-SameHeap p e f kept a
    answered-SameHeap socks count p (none, ok) e f same kept a = absurd (cc same)

    try_proxy-SameHeap :
        (count p : ℕ) (e f : Engine P L M)
        → PopKeeps e (f, holds p)
        → SameHeap e (try_proxy world network addr count p f).0
    unfolding try_proxy
    try_proxy-SameHeap count p e f kept =
        answered-SameHeap _ count p (world.middleware p) e f (honest p) kept

    after_pop-SameHeap :
        (count : ℕ) (e : Engine P L M) (r : Engine P L M × Popped)
        → PopKeeps e r
        → SameHeap e (after_pop shuffle world network addr count r).0
    unfolding after_pop PopKeeps
    after_pop-SameHeap count e (f, holds p) kept = try_proxy-SameHeap count p e f kept
    after_pop-SameHeap count e (f, _) kept = kept

    inner_round-SameHeap :
        (moment : Moment P L M) (count : ℕ) (e : Engine P L M)
        → IsQuiet moment
        → SameHeap e (inner_round shuffle world network addr moment count e).0
    unfolding inner_round
    inner_round-SameHeap moment count e quiet a = elim (Option-cases (scale moment.now e)) [
      | inl panic ↦ rw (panic, inner_round) refl
      | inr ((f, sleep), done) ↦
          rw (done, inner_round)
            (after_pop-SameHeap count f _ (pop_sock_and_lock-PopKeeps moment f quiet) a
              ∙ scale-SameHeap shuffle moment.now e f sleep done a)
    ]

    outer_round-SameHeap :
        (moment : Moment P L M) (count : ℕ) (e : Engine P L M)
        → SameHeap e (outer_round moment count e).0
    unfolding outer_round
    outer_round-SameHeap moment count e a = ground arith

    round-SameHeap :
        (moment : Moment P L M) (place : Place) (e : Engine P L M)
        → IsQuiet moment
        → SameHeap e (round shuffle world network addr moment place e).0
    round-SameHeap moment (outer count) e quiet = outer_round-SameHeap moment count e
    round-SameHeap moment (inner count) e quiet = inner_round-SameHeap moment count e quiet

    -- However the loops of a dial end, and after any number of rounds, every proxy is as they found it,
    -- its lock included, if the middleware gives back the proxy that it was given and the others change
    -- no proxy meanwhile.
    pub dial_from-SameHeap :
        (schedule : List (Moment P L M)) (place : Place) (e : Engine P L M)
        → All IsQuiet schedule
        → SameHeap e (dial_from shuffle world network addr schedule place e).0
    unfolding dial_from
    dial_from-SameHeap [] place e quiet a = refl
    dial_from-SameHeap (moment ∷ schedule) place e quiet a =
        let r : Engine P L M × Next =
          round shuffle world network addr moment place (moment.others e) in
        let kept : r.0.heap a ≡ e.heap a =
          round-SameHeap moment place (moment.others e) quiet.0 a ∙ quiet.0.outside e a in
        elim (next_cases r.1) [
          | inl (place', more) ↦
              rw (more, dial_from) (dial_from-SameHeap schedule place' r.0 quiet.1 a ∙ kept)
          | inr (outcome, done) ↦ rw (done, dial_from) kept
        ]

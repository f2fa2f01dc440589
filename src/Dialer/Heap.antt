-- ===== src/Dialer/Heap.antt =====
-- GetAnySOCKS and a tick of the auto scaler change no proxy.
use prox.Base.{
  ℕ, ◌≡◌, refl, ◌∙◌, Bool, true, false, List, [], ◌∷◌, some, arith, if◌then◌else◌, All, Bool-cases,
  Option-cases, ◌⊎◌, inl, inr,
}
use prox.Text.{Bytes}
use prox.Scaler.{Ants}
use prox.Engine.{Engine, Limiter, Plot}
use prox.Engine.Counters.{get_total_bad}
use prox.Engine.Lists.{Channel, dequeue}
use prox.Scale.{scale, scale_pool, with_outcome, account, scale_dbg}
use prox.Dispense.{Round, again, out, still_good, get_any_lists, get_any_socks}
use prox.Dispense.Policy.{still_good-SameTests}
use prox.Dialer.{Moment, Place, Next, Outcome, goes, ends}

module _ {P L M : Type 0} where
  -- No proxy has changed.
  abbrev pub SameHeap : Engine P L M → Engine P L M → Type 0
  SameHeap e f = (a : ℕ) → f.heap a ≡ e.heap a

  -- The others change no proxy between two rounds, nor between the rounds of GetAnySOCKS.
  pub record IsQuiet (moment : Moment P L M) : Type 0 where
    pub outside : (e : Engine P L M) → SameHeap e (moment.others e)
    pub draws : All (λ d. (e : Engine P L M) → SameHeap e (d.0 e)) moment.draws

if-SameHeap :
    {P L M A : Type 0} (b : Bool) (x y : Engine P L M × A) (e : Engine P L M)
    → SameHeap e x.0
    → SameHeap e y.0
    → SameHeap e (if b then x else y).0
if-SameHeap true x y e h k = h
if-SameHeap false x y e h k = k

pub next_cases : (n : Next) → ((place : Place) × (n ≡ goes place)) ⊎ ((o : Outcome) × (n ≡ ends o))
next_cases (goes place) = inl (place, refl)
next_cases (ends o) = inr (o, refl)

pub round_cases : {A : Type 0} (r : Round A) → (r ≡ again) ⊎ ((x : A) × (r ≡ out x))
round_cases again = inl refl
round_cases (out x) = inr (x, refl)

module _ {P L M : Type 0} ⦃ants : Ants P⦄ ⦃limiter : Limiter L⦄ ⦃plots : Plot M⦄
    (shuffle : List (Bytes × ℕ) → List (Bytes × ℕ)) where
  dequeue-SameHeap : (c : Channel) (e : Engine P L M) → SameHeap e (dequeue c e).0
  unfolding dequeue
  dequeue-SameHeap c e a = refl

  get_any_lists-SameHeap :
      (now : ℕ) (lists : List Channel) (e : Engine P L M)
      → SameHeap e (get_any_lists shuffle now lists e).0
  unfolding get_any_lists
  get_any_lists-SameHeap now [] e a = refl
  get_any_lists-SameHeap now (c ∷ lists) e a = elim (Option-cases (dequeue c e).1) [
    | inl empty ↦ rw (empty, get_any_lists) (get_any_lists-SameHeap now lists e a)
    | inr (p, front) ↦
        let f : Engine P L M = (dequeue c e).0 in
        let kept : (still_good now p f).0.heap a ≡ e.heap a =
          (still_good-SameTests now p f).heap a ∙ dequeue-SameHeap c e a in
        elim (Bool-cases (still_good now p f).1) [
          | inl good ↦ rw (front, good, get_any_lists) kept
          | inr bad ↦
              rw (front, bad, get_any_lists)
                (get_any_lists-SameHeap now lists (still_good now p f).0 a ∙ kept)
        ]
  ]

  pub get_any_socks-SameHeap :
      (schedule : List ((Engine P L M → Engine P L M) × List Channel × ℕ)) (e : Engine P L M)
      → All (λ d. (e : Engine P L M) → SameHeap e (d.0 e)) schedule
      → SameHeap e (get_any_socks shuffle schedule e).0
  unfolding get_any_socks
  get_any_socks-SameHeap [] e q a = refl
  get_any_socks-SameHeap ((others, lists, now) ∷ schedule) e q a =
      let f : Engine P L M = others e in
      let g : Engine P L M × Round ℕ = get_any_lists shuffle now lists f in
      let kept : SameHeap e g.0 = λ b. get_any_lists-SameHeap now lists f b ∙ q.0 e b in
      if-SameHeap f.ctx_done _ _ e (q.0 e)
        (λ b. elim (round_cases g.1) [
          | inl more ↦ rw (more, get_any_socks) (get_any_socks-SameHeap schedule g.0 q.1 b ∙ kept b)
          | inr (p, found) ↦ rw (found, get_any_socks) (kept b)
        ])
        a

  pub scale-SameHeap :
      (now : ℕ) (e f : Engine P L M) (sleep : Bool) → scale now e ≡ some (f, sleep) → SameHeap e f
  unfolding scale scale_pool with_outcome account scale_dbg get_total_bad
  scale-SameHeap now e f sleep h a = ground arith

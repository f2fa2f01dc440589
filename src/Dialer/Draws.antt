-- ===== src/Dialer/Draws.antt =====
-- A pass of GetAnySOCKS whose first list has a good proxy at its front.
use prox.Base.{ℕ, ◌≡◌, refl, ap, ◌∙◌, true, false, List, ◌∷◌, Option, some, if_false}
use prox.Text.{Bytes}
use prox.Engine.{Engine, Limiter, Plot}
use prox.Engine.Counters.{dispense}
use prox.Engine.Lists.{Channel, list_of, dequeue, pop}
use prox.Dispense.{Round, again, out, still_good, get_any_lists, get_any_socks}
use prox.Dispense.Policy.{IsGood, SameTests, still_good-SameTests, still_good_iff}

module _ {P L M : Type 0} ⦃limiter : Limiter L⦄ ⦃plots : Plot M⦄
    (shuffle : List (Bytes × ℕ) → List (Bytes × ℕ)) where
  front_taken :
      (c : Channel) (p : ℕ) (rest : List ℕ) (e : Engine P L M)
      → list_of c e.valids ≡ p ∷ rest
      → (dequeue c e).1 ≡ some p
  unfolding dequeue pop
  front_taken c p rest e front = rw (front, pop) refl

  dequeue-IsGood :
      (c : Channel) (now p : ℕ) (e : Engine P L M) → IsGood now p e → IsGood now p (dequeue c e).0
  unfolding dequeue
  dequeue-IsGood c now p e g = record {
    free = g.free;
    reliable = g.reliable;
    calm = g.calm;
    recent = g.recent;
  }

  -- The first list of a pass has a good proxy at its front.
  first_good :
      (now p : ℕ) (c : Channel) (lists : List Channel) (rest : List ℕ) (e : Engine P L M)
      → list_of c e.valids ≡ p ∷ rest
      → IsGood now p e
      → get_any_lists shuffle now (c ∷ lists) e ≡ ((still_good now p (dequeue c e).0).0, out p)
  unfolding get_any_lists
  first_good now p c lists rest e front good =
      let taken : (dequeue c e).1 ≡ some p = front_taken c p rest e front in
      let fine : (still_good now p (dequeue c e).0).1 ≡ true =
        (still_good_iff now p (dequeue c e).0).1 (dequeue-IsGood c now p e good) in
      rw (taken, fine, get_any_lists) refl

  -- What GetAnySOCKS makes of a pass.
  passed :
      List ((Engine P L M → Engine P L M) × List Channel × ℕ)
      → Engine P L M × Round ℕ
      → Engine P L M × Option (Option ℕ)
  passed draws r = elim r.1 [
    | again ↦ get_any_socks shuffle draws r.0
    | out p ↦ (record r.0 { stats = dispense r.0.stats }, some (some p))
  ]

  pass :
      (others : Engine P L M → Engine P L M) (now : ℕ) (lists : List Channel)
      (draws : List ((Engine P L M → Engine P L M) × List Channel × ℕ)) (e : Engine P L M)
      → (others e).ctx_done ≡ false
      → get_any_socks shuffle ((others, lists, now) ∷ draws) e
        ≡ passed draws (get_any_lists shuffle now lists (others e))
  unfolding get_any_socks passed
  pass others now lists draws e open_engine = if_false (others e).ctx_done _ _ open_engine

  -- One pass of GetAnySOCKS hands that proxy out, and leaves the proxies and the options alone.
  pub first_drawn :
      (others : Engine P L M → Engine P L M) (now p : ℕ) (c : Channel) (lists : List Channel)
      (draws : List ((Engine P L M → Engine P L M) × List Channel × ℕ)) (rest : List ℕ)
      (e : Engine P L M)
      → (others e).ctx_done ≡ false
      → list_of c (others e).valids ≡ p ∷ rest
      → IsGood now p (others e)
      → (f : Engine P L M) × (get_any_socks shuffle ((others, c ∷ lists, now) ∷ draws) e
          ≡ (f, some (some p)))
        × (f.heap p ≡ (others e).heap p)
        × (f.opt ≡ (others e).opt)
  unfolding dequeue passed
  first_drawn others now p c lists draws rest e open_engine front good =
      let g : Engine P L M = (still_good now p (dequeue c (others e)).0).0 in
      let s : SameTests (dequeue c (others e)).0 g =
        still_good-SameTests now p (dequeue c (others e)).0 in
      (
        record g { stats = dispense g.stats },
        pass others now (c ∷ lists) draws e open_engine
            ∙ ap (passed draws) (first_good now p c lists rest (others e) front good),
        s.heap p,
        s.opt,
      )

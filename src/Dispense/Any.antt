-- ===== src/Dispense/Any.antt =====
-- What GetAnySOCKS hands out.
use prox.Base.{
  ℕ, ◌≡◌, sym, ◌∙◌, ap, subst, true, false, List, [], ◌∷◌, none, some, Bool-cases, Option-cases,
  inl, inr,
}
use prox.Text.{Bytes}
use prox.Engine.{Engine, Limiter, Plot}
use prox.Engine.Lists.{Channel, dequeue}
use prox.Dispense.{Round, again, out, still_good, get_any_lists}
use prox.Dispense.Policy.{IsGood, SameTests, still_good-SameTests, still_good_iff}
use prox.Dispense.Draws.{IsGood-SameTests}

drawn_address : Round ℕ → ℕ
drawn_address again = 0
drawn_address (out p) = p

pub out_inj : (p q : ℕ) → out p ≡ out q → p ≡ q
unfolding drawn_address
out_inj p q h = ap drawn_address h

module _ {P L M : Type 0} ⦃limiter : Limiter L⦄ ⦃plots : Plot M⦄ where
  IsGood-dequeue :
      (c : Channel) (now p : ℕ) (e : Engine P L M) → IsGood now p (dequeue c e).0 → IsGood now p e
  unfolding dequeue
  IsGood-dequeue c now p e g = record {
    free = g.free;
    reliable = g.reliable;
    calm = g.calm;
    recent = g.recent;
  }

  SameTests-sym : (e f : Engine P L M) → SameTests e f → SameTests f e
  SameTests-sym e f s = record {
    heap = λ a. sym (s.heap a);
    opt = sym s.opt;
    bad_prox = sym s.bad_prox;
    valids = sym s.valids;
    pending = sym s.pending;
    ctx_done = sym s.ctx_done;
    dispensed = sym s.dispensed;
    next_address = sym s.next_address;
  }

  module _ (shuffle : List (Bytes × ℕ) → List (Bytes × ℕ)) where
    pub lists_empty :
        (now : ℕ) (c : Channel) (lists : List Channel) (e : Engine P L M)
        → (dequeue c e).1 ≡ none
        → get_any_lists shuffle now (c ∷ lists) e ≡ get_any_lists shuffle now lists e
    unfolding get_any_lists
    lists_empty now c lists e h = rw (h, get_any_lists)

    pub lists_good :
        (now q : ℕ) (c : Channel) (lists : List Channel) (e : Engine P L M)
        → (dequeue c e).1 ≡ some q
        → (still_good now q (dequeue c e).0).1 ≡ true
        → (get_any_lists shuffle now (c ∷ lists) e).1 ≡ out q
    unfolding get_any_lists
    lists_good now q c lists e h good = rw (h, good, get_any_lists)

    pub lists_bad :
        (now q : ℕ) (c : Channel) (lists : List Channel) (e : Engine P L M)
        → (dequeue c e).1 ≡ some q
        → (still_good now q (dequeue c e).0).1 ≡ false
        → get_any_lists shuffle now (c ∷ lists) e
          ≡ get_any_lists shuffle now lists (still_good now q (dequeue c e).0).0
    unfolding get_any_lists
    lists_bad now q c lists e h bad = rw (h, bad, get_any_lists)

    -- A pass of GetAnySOCKS over any lists, in any order, hands out good proxies only.
    pub get_any_lists-IsGood :
        (now p : ℕ) (lists : List Channel) (e : Engine P L M)
        → (get_any_lists shuffle now lists e).1 ≡ out p
        → IsGood now p e
    unfolding get_any_lists
    get_any_lists-IsGood now p [] e h = cc
    get_any_lists-IsGood now p (c ∷ lists) e h = elim (Option-cases (dequeue c e).1) [
      | inl empty ↦
          get_any_lists-IsGood now p lists e
            (ap (λ r. r.1) (sym (lists_empty now c lists e empty)) ∙ h)
      | inr (q, front) ↦
          let f : Engine P L M = (dequeue c e).0 in
          elim (Bool-cases (still_good now q f).1) [
            | inl good ↦
                (let q≡p : q ≡ p = out_inj q p (sym (lists_good now q c lists e front good) ∙ h) in
                  IsGood-dequeue c now p e
                    (subst (λ a. IsGood now a f) q≡p ((still_good_iff now q f).0 good)))
            | inr bad ↦ IsGood-dequeue c now p e (
                IsGood-SameTests now p _ f (SameTests-sym f _ (still_good-SameTests now q f)) (
                  get_any_lists-IsGood now p lists (still_good now q f).0
                    (ap (λ r. r.1) (sym (lists_bad now q c lists e front bad)) ∙ h)))
          ]
    ]

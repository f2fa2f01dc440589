-- ===== src/Load/Forgetful.antt =====
-- What is left of a book once the order of its queue is forgotten.
use mathlib.Core.Logic.{∥∥₁_elim}
use mathlib.Core.List.{Perm, Permᴰ}
use mathlib.Core.List.Perm
use mathlib.Core.Quot
use mathlib.Core.Quot.{Quot, Quot-set}
use prox.Base.{append_assoc, true, false, ◌≡◌, refl, ap, ◌∙◌, sym, Bool, ◌||◌, List, [], ◌∷◌}
use prox.Text.{Bytes, same}
use prox.Engine.{Engine, Plot}
use prox.Daemons.MapLaws.{PlotLaws, IsKnown}
use prox.Load.{load_multi_line_string, scan}
use prox.Load.Book.{Book, load_text, enter, enter_all, meaning, book, perform}
use prox.Load.Refines.{perform-book}

-- The same endpoints are known, and the same are queued, each as often.
pub record SameBook (b c : Book) : Type 0 where
  pub known : (k : Bytes) → b.known k ≡ c.known k
  pub queue : Perm b.queue c.queue

abbrev pub Ledger : Type 0
Ledger = Quot SameBook

abbrev pub forget : Book → Ledger
forget = Quot.mk

SameBook-refl : (b : Book) → SameBook b b
SameBook-refl b = record { known = λ k. refl; queue = Perm.rfl }

SameBook-trans : (a b c : Book) → SameBook a b → SameBook b c → SameBook a c
SameBook-trans a b c s t = record {
  known = λ k. s.known k ∙ t.known k;
  queue = Perm.trans s.queue t.queue;
}

enter-SameBook : (sock : Bytes) (b c : Book) → SameBook b c → SameBook (enter sock b) (enter sock c)
unfolding enter
enter-SameBook sock b c s = record {
  known = λ k. ap (λ x. same sock k || x) (s.known k);
  queue = Perm.append_right (sock ∷ []) s.queue;
}

enter_all-SameBook :
    (lines : List Bytes) (b c : Book)
    → SameBook b c
    → SameBook (enter_all lines b) (enter_all lines c)
unfolding enter_all
enter_all-SameBook [] b c s = s
enter_all-SameBook (line ∷ rest) b c s =
    enter_all-SameBook rest (enter line b) (enter line c) (enter-SameBook line b c s)

or_swap : (x y z : Bool) → (x || (y || z)) ≡ (y || (x || z))
or_swap true true z = refl
or_swap true false z = refl
or_swap false y z = refl

enter_comm : (s t : Bytes) (b : Book) → SameBook (enter s (enter t b)) (enter t (enter s b))
unfolding enter
enter_comm s t b = record {
  known = λ k. or_swap (same s k) (same t k) (b.known k);
  queue =
      rw (append_assoc b.queue (t ∷ []) (s ∷ []), append_assoc b.queue (s ∷ []) (t ∷ []))
        (Perm.append_left b.queue (Perm.swap s t []));
}

-- Lines in another order are entered to the same effect.
enter_all-Perm :
    {lines others : List Bytes}
    → Permᴰ lines others
    → (b : Book) → SameBook (enter_all lines b) (enter_all others b)
unfolding enter_all
enter_all-Perm Permᴰ.nil b = SameBook-refl b
enter_all-Perm (Permᴰ.cons {a} {l₂ = others} e d) b = rw (sym e) (enter_all-Perm d (enter a b))
enter_all-Perm (Permᴰ.swap {a} {b = a'} {l = rest} e₁ e₂) b =
    rw (sym e₁, sym e₂)
      (enter_all-SameBook rest (enter a' (enter a b)) (enter a (enter a' b)) (enter_comm a' a b))
enter_all-Perm (Permᴰ.trans d₁ d₂) b =
    SameBook-trans _ _ _ (enter_all-Perm d₁ b) (enter_all-Perm d₂ b)

forgotten :
    {lines others : List Bytes} (b : Book)
    → Perm lines others
    → forget (enter_all lines b) ≡ forget (enter_all others b)
forgotten b p = ∥∥₁_elim p (Quot-set _ _) (λ d. Quot.sound (enter_all-Perm d b))

module _ {P L M : Type 0} ⦃plots : Plot M⦄ where
  -- What is left of an engine.
  unfoldable pub ledger : Engine P L M → Ledger
  ledger e = forget (book e)

  module _ (laws : PlotLaws plots) where
    -- Two texts with the same lines, in any order, do the same to an engine whose map and Pending are in
    -- order, once the order of Pending is forgotten: the same endpoints are known, and the same are
    -- queued, each as often.
    pub load_multi_line_string-ledger :
        (socks others : Bytes) (e : Engine P L M)
        → IsKnown e
        → Perm (scan socks) (scan others)
        → ledger (load_multi_line_string socks e).0 ≡ ledger (load_multi_line_string others e).0
    unfolding ledger perform meaning
    load_multi_line_string-ledger socks others e v p =
        ap forget (perform-book laws (load_text socks) e v)
        ∙ forgotten (book e) p
        ∙ sym (ap forget (perform-book laws (load_text others) e v))

-- ===== src/System/Queues.antt =====
-- Changes of the lists and of Pending.
use mathlib.Core.List.{Perm, Mem, mem-cons, not-mem-nil, mem-cons_self, mem-cons_of_mem}
use mathlib.Core.List.Perm
use mathlib.Core.Logic.Or
use prox.Base.{ℕ, ◌<◌, refl, sym, subst, List, [], ◌∷◌, ◌++◌, inl, inr, arith, All, All-append}
use prox.Scaler.{Ants}
use prox.Scaler.Bounds.{IsTunable}
use prox.Engine.{Engine, Plot, Valids}
use prox.Engine.Lists.{
  Channel, socks5, socks4, socks4a, http, list_of, with_list, add, enqueue, dequeue, pop,
}
use prox.System.{Internet}
use prox.System.Sound.{Belongs, Safe}

pub All-with_list :
    (Q : Channel → ℕ → Type 0) (c : Channel) (l : List ℕ) (v : Valids)
    → All (Q c) l
    → ((d : Channel) → All (Q d) (list_of d v))
    → (d : Channel) → All (Q d) (list_of d (with_list c l v))
unfolding list_of with_list
All-with_list Q socks5 l v h k socks5 = h
All-with_list Q socks5 l v h k socks4 = k socks4
All-with_list Q socks5 l v h k socks4a = k socks4a
All-with_list Q socks5 l v h k http = k http
All-with_list Q socks4 l v h k socks5 = k socks5
All-with_list Q socks4 l v h k socks4 = h
All-with_list Q socks4 l v h k socks4a = k socks4a
All-with_list Q socks4 l v h k http = k http
All-with_list Q socks4a l v h k socks5 = k socks5
All-with_list Q socks4a l v h k socks4 = k socks4
All-with_list Q socks4a l v h k socks4a = h
All-with_list Q socks4a l v h k http = k http
All-with_list Q http l v h k socks5 = k socks5
All-with_list Q http l v h k socks4 = k socks4
All-with_list Q http l v h k socks4a = k socks4a
All-with_list Q http l v h k http = h

All-pop : (Q : ℕ → Type 0) (l : List ℕ) → All Q l → All Q (pop l).0
unfolding pop
All-pop Q [] h = tt
All-pop Q (p ∷ rest) h = h.1

All-of-mem {ℓ} : {A : Type ℓ} (Q : A → Type 0) (l : List A) → ((x : A) → Mem x l → Q x) → All Q l
All-of-mem Q [] f = tt
All-of-mem Q (x ∷ l) f = (f x mem-cons_self, All-of-mem Q l (λ y m. f y (mem-cons_of_mem x m)))

mem-All {ℓ} :
    {A : Type ℓ} (Q : A → Type 0) (prop : (x : A) → IsProp (Q x)) (l : List A) (x : A)
    → All Q l
    → Mem x l
    → Q x
mem-All Q prop [] x h m = absurd (not-mem-nil m)
mem-All Q prop (y ∷ l) x h m =
    Or.elim (prop x) (mem-cons.0 m) (λ e. subst Q (sym e) h.0) (mem-All Q prop l x h.1)

-- A property of all elements does not depend on their order.
pub All-perm {ℓ} :
    {A : Type ℓ} (Q : A → Type 0)
    → ((x : A) → IsProp (Q x))
    → (l r : List A) → Perm l r
    → All Q r
    → All Q l
All-perm Q prop l r perm h = All-of-mem Q l (λ x m. mem-All Q prop r x h ((Perm.mem_iff perm).0 m))

module _ ⦃internet : Internet⦄ {P L M : Type 0} ⦃ants : Ants P⦄ ⦃plots : Plot M⦄
    (tunable : IsTunable ants) where
  relisted :
      (v : Valids) (e : Engine P L M)
      → ((c : Channel) → All (Belongs e c) (list_of c v))
      → Safe tunable e (record e { valids = v })
  relisted v e h s = (
    record {
      known = record { exists = s.known.exists; keyed = s.known.keyed; queued = s.known.queued };
      listed = h;
      once = s.once;
      upright = s.upright;
    },
    record { grows = omega arith; keeps = λ a. inr (inl refl) },
  )

  -- A proxy goes to the back of the list of its protocol.
  pub enqueue-Safe :
      (c : Channel) (p : ℕ) (e : Engine P L M) → Belongs e c p → Safe tunable e (enqueue c p e)
  unfolding enqueue add
  enqueue-Safe c p e b s =
      relisted _ e
        (All-with_list (Belongs e) c (list_of c e.valids ++ (p ∷ [])) e.valids
          (All-append (Belongs e c) (list_of c e.valids) (p ∷ []) (s.listed c) (b, tt)) s.listed)
        s

  pub dequeue-Safe : (c : Channel) (e : Engine P L M) → Safe tunable e (dequeue c e).0
  unfolding dequeue
  dequeue-Safe c e s =
      relisted _ e
        (All-with_list (Belongs e) c (pop (list_of c e.valids)).0 e.valids
          (All-pop (Belongs e c) (list_of c e.valids) (s.listed c)) s.listed)
        s

  -- Pending is replaced by a list of proxies that exist.
  pub requeued :
      (l : List ℕ) (e : Engine P L M)
      → All (λ p. p < e.next_address) l
      → Safe tunable e (record e { pending = l })
  requeued l e h s = (
    record {
      known = record { exists = s.known.exists; keyed = s.known.keyed; queued = h };
      listed = s.listed;
      once = s.once;
      upright = s.upright;
    },
    record { grows = omega arith; keeps = λ a. inr (inl refl) },
  )

-- ===== src/Validate/Walks.antt =====
-- What a run of the loop over the protocols leaves, one protocol after another.
use prox.Base.{
  ℕ, zero, suc, ◌≡◌, refl, ap, ◌∙◌, fun_ext, Bool, true, false, not, ◌&&◌, List, [], ◌∷◌, Option,
  none, some, ℤ, pos, add64, arith, if◌then◌else◌, Bool-cases, inl, inr,
}
use prox.Proxy.{Proto, Protocol, is_null, set}
use prox.Engine.{Engine, Limiter}
use prox.Validate.{Network, attempt}
use prox.Validate.Attempts.{succeeds, works, attempt-endpoint, Untouched, Untouched-trans}

-- The first protocol in the order, other than the null one, whose check succeeds.
unfoldable pub first_success : (Protocol → Bool) → List Protocol → Option Protocol
first_success ok [] = none
first_success ok (protocol ∷ rest) =
    let later : Option Protocol = first_success ok rest in
    if not (is_null protocol) && ok protocol then some protocol else later

-- The number of protocols that are not null.
unfoldable pub tried : List Protocol → ℕ
tried [] = 0
tried (protocol ∷ rest) = let n : ℕ = tried rest in if is_null protocol then n else suc n

-- The protocol is set once.
pub set_first : (p : Proto) (a b : Protocol) → set (set p a) b ≡ set p a
unfolding set
set_first p a b = ground arith

-- The protocol after the checks of an order.
abbrev pub set_option : Proto → Option Protocol → Proto
set_option p none = p
set_option p (some q) = set p q

-- `checked` after a number of checks.
abbrev pub checked_after : ℕ → ℤ → ℤ
checked_after zero n = n
checked_after (suc k) n = checked_after k (add64 n (pos 1))

set_option-set : (x : Proto) (q : Protocol) (o : Option Protocol) → set_option (set x q) o ≡ set x q
set_option-set x q none = refl
set_option-set x q (some r) = set_first x q r

kept_protocol :
    (w : Protocol → Bool) (protocol : Protocol) (rest : List Protocol) (x y : Proto)
    → is_null protocol ≡ false
    → y ≡ (if w protocol then set x protocol else x)
    → set_option y (first_success w rest) ≡ set_option x (first_success w (protocol ∷ rest))
unfolding first_success
kept_protocol w protocol rest x y full h = elim (Bool-cases (w protocol)) [
  | inl t ↦
      (let k : y ≡ set x protocol = h ∙ rw t in
        rw (full, t, k, set_option-set x protocol (first_success w rest)))
  | inr t ↦ (let k : y ≡ x = h ∙ rw t in rw (full, t, k))
]

checked_step :
    (protocol : Protocol) (rest : List Protocol) (n : ℤ)
    → is_null protocol ≡ false
    → checked_after (tried rest) (add64 n (pos 1)) ≡ checked_after (tried (protocol ∷ rest)) n
unfolding tried
checked_step protocol rest n full = rw full

module _ {P L M : Type 0} ⦃limiter : Limiter L⦄ where
  -- What the loop over an order does when no context is done.
  pub record Walked (net : Network) (p : ℕ) (order : List Protocol) (e : Engine P L M)
      (r : Engine P L M × Bool) : Type 0 where
    pub frame : Untouched p e r.0
    pub returned : r.1 ≡ false
    pub protocol :
        (r.0.heap p).protocol
        ≡ set_option (e.heap p).protocol (first_success (works net e.opt (e.heap p)) order)
    pub checked : r.0.stats.checked ≡ checked_after (tried order) e.stats.checked

  same_works :
      (net : Network) (p : ℕ) (e f : Engine P L M)
      → Untouched p e f
      → works net f.opt (f.heap p) ≡ works net e.opt (e.heap p)
  same_works net p e f frame = fun_ext (λ q. ap succeeds (
      ap (λ o. attempt net o (f.heap p) q) frame.opt
      ∙ attempt-endpoint net e.opt (f.heap p) (e.heap p) q frame.endpoint))

  pub Walked-step :
      (net : Network) (p : ℕ) (protocol : Protocol) (rest : List Protocol) (e f : Engine P L M)
      (r : Engine P L M × Bool)
      → is_null protocol ≡ false
      → Untouched p e f
      → (f.heap p).protocol ≡ (
          if works net e.opt (e.heap p) protocol
          then set (e.heap p).protocol protocol
          else (e.heap p).protocol)
      → f.stats.checked ≡ add64 e.stats.checked (pos 1)
      → Walked net p rest f r
      → Walked net p (protocol ∷ rest) e r
  Walked-step net p protocol rest e f r full frame kept counted later = record {
    frame = Untouched-trans p e f r.0 frame later.frame;
    returned = later.returned;
    protocol =
        later.protocol
        ∙ ap (λ w. set_option (f.heap p).protocol (first_success w rest))
            (same_works net p e f frame)
        ∙ kept_protocol (works net e.opt (e.heap p)) protocol rest (e.heap p).protocol
            (f.heap p).protocol full kept;
    checked =
        later.checked
        ∙ ap (checked_after (tried rest)) counted
        ∙ checked_step protocol rest e.stats.checked full;
  }

  pub Walked-null :
      (net : Network) (p : ℕ) (protocol : Protocol) (rest : List Protocol) (e : Engine P L M)
      (r : Engine P L M × Bool)
      → is_null protocol ≡ true
      → Walked net p rest e r
      → Walked net p (protocol ∷ rest) e r
  unfolding first_success tried
  Walked-null net p protocol rest e r null w = record {
    frame = w.frame;
    returned = w.returned;
    protocol = w.protocol ∙ rw null;
    checked = w.checked ∙ rw null;
  }

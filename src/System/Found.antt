-- ===== src/System/Found.antt =====
-- The protocol of a proxy over time: it is set once, and only where the check of it succeeds.
use prox.Base.{◌≡◌, ap, sym, ◌∙◌, subst, true, false, some, ◌⊎◌, inl, inr, arith, Bool-cases}
use prox.Text.{Bytes}
use prox.Proxy.{Protocol, Proto, proto_null, set}
use prox.Engine.Lists.{Channel, channel_of}
use prox.System.{Internet, Spoke}

-- A protocol before and after: as it was, or set for the first time.
abbrev pub Kept : Proto → Proto → Type 0
Kept x y = (y ≡ x) ⊎ ((x.fired ≡ false) × (y.fired ≡ true))

pub Kept-trans : (x y z : Proto) → Kept x y → Kept y z → Kept x z
Kept-trans x y z (inl h) (inl k) = inl (k ∙ h)
Kept-trans x y z (inl h) (inr (k, l)) = inr (ap (λ p. p.fired) (sym h) ∙ k, l)
Kept-trans x y z (inr (h, i)) (inl k) = inr (h, ap (λ p. p.fired) k ∙ i)
Kept-trans x y z (inr (h, i)) (inr (k, l)) = inr (h, l)

module _ ⦃internet : Internet⦄ where
  -- A protocol of the proxy with this endpoint: as it was, or set for the first time, to one whose check
  -- succeeds.
  abbrev pub Found : Bytes → Proto → Proto → Type 0
  Found endpoint x y = (y ≡ x) ⊎ ((x.fired ≡ false) × (y.fired ≡ true) × Spoke endpoint y.value)

  -- A protocol is null until it is set, and then the proxy was found to speak it.
  abbrev pub IsOnce : Bytes → Proto → Type 0
  IsOnce endpoint x = ((x.fired ≡ true) × Spoke endpoint x.value) ⊎ (x.value ≡ proto_null)

  pub set-Found :
      (endpoint : Bytes) (x : Proto) (q : Protocol) → Spoke endpoint q → Found endpoint x (set x q)
  unfolding set
  set-Found endpoint x q spoke = elim (Bool-cases x.fired) [
    | inl fired ↦ inl (ground (arith, fired))
    | inr unset ↦
        (let noted : q ≡ (set x q).value = ground (arith, unset) in
          inr (unset, ground (arith, unset), subst (Spoke endpoint) noted spoke))
  ]

  pub Found-Kept : (endpoint : Bytes) (x y : Proto) → Found endpoint x y → Kept x y
  Found-Kept endpoint x y (inl h) = inl h
  Found-Kept endpoint x y (inr (h, i, _)) = inr (h, i)

  pub Found-trans :
      (endpoint : Bytes) (x y z : Proto)
      → Found endpoint x y
      → Found endpoint y z
      → Found endpoint x z
  Found-trans endpoint x y z (inl h) (inl k) = inl (k ∙ h)
  Found-trans endpoint x y z (inl h) (inr (k, l, t)) = inr (ap (λ p. p.fired) (sym h) ∙ k, l, t)
  Found-trans endpoint x y z (inr (h, i, s)) (inl k) =
      inr (h, ap (λ p. p.fired) k ∙ i, subst (λ p. Spoke endpoint p.value) (sym k) s)
  Found-trans endpoint x y z (inr (h, i, s)) (inr (k, l, t)) = inr (h, l, t)

  pub Found-IsOnce :
      (endpoint : Bytes) (x y : Proto) → Found endpoint x y → IsOnce endpoint x → IsOnce endpoint y
  Found-IsOnce endpoint x y (inl h) o = subst (IsOnce endpoint) (sym h) o
  Found-IsOnce endpoint x y (inr (h, i, s)) o = inl (i, s)

  -- A protocol that has a list stays as it is.
  pub listed-Kept :
      (endpoint : Bytes) (x y : Proto) (c : Channel)
      → IsOnce endpoint x
      → Kept x y
      → channel_of x.value ≡ some c
      → channel_of y.value ≡ some c
  listed-Kept endpoint x y c o (inl h) l = ap (λ p. channel_of p.value) h ∙ l
  listed-Kept endpoint x y c (inl fired) (inr (h, i)) l = absurd (cc (fired.0, h))
  listed-Kept endpoint x y c (inr null) (inr (h, i)) l = cc (null, l)

  -- A protocol that has a list was found.
  pub listed-Spoke :
      (endpoint : Bytes) (x : Proto) (c : Channel)
      → IsOnce endpoint x
      → channel_of x.value ≡ some c
      → Spoke endpoint x.value
  listed-Spoke endpoint x c (inl found) l = found.1
  listed-Spoke endpoint x c (inr null) l = absurd (cc (ap channel_of null, l))

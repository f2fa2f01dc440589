-- ===== src/Validate/Loop.antt =====
-- The loop of Proxy.validate over the protocols.
use prox.Base.{
  ℕ, ◌≡◌, refl, ap, ◌∙◌, sym, subst, Bool, true, false, List, [], ◌∷◌, pos, add64, arith,
  if◌then◌else◌, Bool-cases, inl, inr,
}
use prox.Proxy.{Protocol, is_null, set}
use prox.Engine.{Engine, Limiter}
use prox.Engine.Store.{store, update_self}
use prox.Validate.{Network, attempt, single_proxy_check, try_protocols}
use prox.Validate.Attempts.{
  works, Untouched, Untouched-trans, Untouched-refl, Settled, single_proxy_check-Settled,
}
use prox.Validate.Walks.{first_success, tried, Walked, Walked-step, Walked-null}

module _ {P L M : Type 0} ⦃limiter : Limiter L⦄ where
  -- The engine after a check of the loop, and after the round.
  abbrev noted : ℕ → Protocol → Engine P L M → Bool → Engine P L M
  noted p protocol f ok =
      if ok
      then store p (record (f.heap p) { protocol = set (f.heap p).protocol protocol }) f
      else f

  stepped : Network → ℕ → Protocol → Engine P L M → Engine P L M
  stepped net p protocol e =
      let (e', ok) = single_proxy_check net p protocol e in noted p protocol e' ok

  try_protocols-null :
      (net : Network) (p : ℕ) (protocol : Protocol) (rest : List Protocol) (e : Engine P L M)
      → is_null protocol ≡ true
      → try_protocols net (λ _. false) p (protocol ∷ rest) e
        ≡ try_protocols net (λ _. false) p rest e
  unfolding try_protocols
  try_protocols-null net p protocol rest e null = rw null

  try_protocols-next :
      (net : Network) (p : ℕ) (protocol : Protocol) (rest : List Protocol) (e : Engine P L M)
      → is_null protocol ≡ false
      → try_protocols net (λ _. false) p (protocol ∷ rest) e
        ≡ try_protocols net (λ _. false) p rest (stepped net p protocol e)
  unfolding try_protocols stepped
  try_protocols-next net p protocol rest e full = rw full

  noted-Untouched :
      (p : ℕ) (protocol : Protocol) (f : Engine P L M) (ok : Bool)
      → Untouched p f (noted p protocol f ok)
  unfolding store
  noted-Untouched p protocol f true = record {
    others = λ a. ground arith;
    endpoint = ground arith;
    lock = ground arith;
    has_parent = ground arith;
    times_validated = ground arith;
    times_bad = ground arith;
    last_validated = ground arith;
    opt = refl;
    valids = refl;
    pending = refl;
  }
  noted-Untouched p protocol f false = Untouched-refl p f

  noted-protocol :
      (p : ℕ) (protocol : Protocol) (f : Engine P L M) (ok : Bool)
      → ((noted p protocol f ok).heap p).protocol
        ≡ (if ok then set (f.heap p).protocol protocol else (f.heap p).protocol)
  unfolding store
  noted-protocol p protocol f true = ap (λ s. s.protocol) (update_self f.heap p _)
  noted-protocol p protocol f false = refl

  noted-checked :
      (p : ℕ) (protocol : Protocol) (f : Engine P L M) (ok : Bool)
      → (noted p protocol f ok).stats ≡ f.stats
  unfolding store
  noted-checked p protocol f true = refl
  noted-checked p protocol f false = refl

  stepped-frame :
      (net : Network) (p : ℕ) (protocol : Protocol) (e : Engine P L M)
      → Untouched p e (stepped net p protocol e)
  unfolding stepped
  stepped-frame net p protocol e =
      let r : Engine P L M × Bool = single_proxy_check net p protocol e in
      Untouched-trans p e r.0 (noted p protocol r.0 r.1)
        (single_proxy_check-Settled net p protocol e).frame (noted-Untouched p protocol r.0 r.1)

  stepped-protocol :
      (net : Network) (p : ℕ) (protocol : Protocol) (e : Engine P L M)
      → ((stepped net p protocol e).heap p).protocol ≡ (
          if works net e.opt (e.heap p) protocol
          then set (e.heap p).protocol protocol
          else (e.heap p).protocol)
  unfolding stepped
  stepped-protocol net p protocol e =
      let r : Engine P L M × Bool = single_proxy_check net p protocol e in
      let s : Settled p (attempt net e.opt (e.heap p) protocol) e r =
        single_proxy_check-Settled net p protocol e in
      noted-protocol p protocol r.0 r.1 ∙ rw (s.result, s.protocol)

  stepped-checked :
      (net : Network) (p : ℕ) (protocol : Protocol) (e : Engine P L M)
      → (stepped net p protocol e).stats.checked ≡ add64 e.stats.checked (pos 1)
  unfolding stepped
  stepped-checked net p protocol e =
      let r : Engine P L M × Bool = single_proxy_check net p protocol e in
      ap (λ t. t.checked) (noted-checked p protocol r.0 r.1)
      ∙ (single_proxy_check-Settled net p protocol e).checked

  -- When the context of no check is done, the loop over the protocols does not return early: it makes
  -- a check for every protocol in the order that is not null, also after one has succeeded, and
  -- leaves the proxy with the protocol it had, or, where that was never set, with the first one
  -- whose check succeeds. Of the proxy it changes nothing else but the outside address; it changes
  -- no other proxy, no option, no list and not the pending queue.
  pub try_protocols-Walked :
      (net : Network) (p : ℕ) (order : List Protocol) (e : Engine P L M)
      → Walked net p order e (try_protocols net (λ _. false) p order e)
  unfolding try_protocols first_success tried
  try_protocols-Walked net p [] e = record {
    frame = Untouched-refl p e;
    returned = refl;
    protocol = refl;
    checked = refl;
  }
  try_protocols-Walked net p (protocol ∷ rest) e = elim (Bool-cases (is_null protocol)) [
    | inl null ↦
        subst (Walked net p (protocol ∷ rest) e)
          (sym (try_protocols-null net p protocol rest e null))
          (Walked-null net p protocol rest e _ null (try_protocols-Walked net p rest e))
    | inr full ↦
        (let f : Engine P L M = stepped net p protocol e in
          subst (Walked net p (protocol ∷ rest) e)
            (sym (try_protocols-next net p protocol rest e full))
            (Walked-step net p protocol rest e f _ full (stepped-frame net p protocol e)
              (stepped-protocol net p protocol e) (stepped-checked net p protocol e)
              (try_protocols-Walked net p rest f)))
  ]

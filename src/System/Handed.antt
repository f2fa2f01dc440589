-- ===== src/System/Handed.antt =====
-- What is handed out in the states that an engine can reach.
use mathlib.Core.List.{Perm, Memᴰ}
use prox.Base.{
  ℕ, ◌<◌, ◌≡◌, refl, ap, sym, ◌∙◌, subst, List, [], ◌∷◌, some, inl, inr, arith, All, Bool-cases,
  Option-cases, List-cases,
}
use prox.Text.{Bytes}
use prox.Proxy.{get_proto, get}
use prox.Scaler.{Ants}
use prox.Scaler.Bounds.{IsTunable}
use prox.Debug.{Debug}
use prox.Engine.{Engine, Limiter, Plot, def_opt, engine_with}
use prox.Engine.Lists.{Channel, channel_of, list_of, dequeue, pop}
use prox.Daemons.MapLaws.{PlotLaws}
use prox.Dispense.{again, out, still_good, get_socks_round, get_any_lists}
use prox.Dispense.Policy.{IsGood, SameTests, still_good-SameTests}
use prox.Dispense.Draws.{get_socks_round_lem}
use prox.Dispense.Any.{out_inj, lists_empty, lists_good, lists_bad, get_any_lists-IsGood}
use prox.System.{Internet, Spoke, Reach}
use prox.System.Sound.{Advances, Belongs, Belongs-Spoke, IsSound}
use prox.System.Queues.{dequeue-Safe}
use prox.System.Draws.{still_good-Safe}
use prox.System.Reached.{reached-IsSound}

module _ ⦃internet : Internet⦄ {P L M : Type 0} ⦃limiter : Limiter L⦄ ⦃plots : Plot M⦄ where
  -- What a round of getSocksStr hands out for a protocol.
  abbrev pub Offers : Channel → ℕ → Engine P L M → Bytes → Type 0
  Offers c now e endpoint =
      (p : ℕ) × Belongs e c p
      × Spoke endpoint (e.heap p).protocol.value
      × IsGood now p e
      × (endpoint ≡ (e.heap p).endpoint)

module _ ⦃internet : Internet⦄ {P L M : Type 0} ⦃ants : Ants P⦄ ⦃limiter : Limiter L⦄
    ⦃plots : Plot M⦄ (tunable : IsTunable ants) (laws : PlotLaws plots)
    (shuffle : List (Bytes × ℕ) → List (Bytes × ℕ))
    (permutes : (l : List (Bytes × ℕ)) → Perm (shuffle l) l) where
  empty_round :
      (c : Channel) (now : ℕ) (e : Engine P L M)
      → list_of c e.valids ≡ []
      → (get_socks_round shuffle c now e).1 ≡ again
  unfolding get_socks_round
  empty_round c now e h = rw (h, get_socks_round) refl

  front-Belongs :
      (c : Channel) (p : ℕ) (rest : List ℕ) (e : Engine P L M)
      → IsSound tunable e
      → list_of c e.valids ≡ p ∷ rest
      → Belongs e c p
  front-Belongs c p rest e v h = (subst (All (Belongs e c)) h (v.listed c)).0

  pub round-Offers :
      (c : Channel) (now : ℕ) (e : Engine P L M) {endpoint : Bytes}
      → IsSound tunable e
      → (get_socks_round shuffle c now e).1 ≡ out endpoint
      → Offers c now e endpoint
  round-Offers c now e {endpoint} v given = elim (List-cases (list_of c e.valids)) [
    | inl empty ↦ absurd (cc (given, empty_round c now e empty))
    | inr (p, rest, front) ↦ elim (get_socks_round_lem shuffle c now p rest e front).1 [
      | inl (good, done, _) ↦
          (let b : Belongs e c p = front-Belongs c p rest e v front in
            let same : endpoint ≡ (e.heap p).endpoint = cc (given, done) in
            (
              p,
              b,
              subst (λ k. Spoke k (e.heap p).protocol.value) (sym same)
                  (Belongs-Spoke tunable e c p v b),
              good,
              same,
            ))
      | inr (bad, more, _) ↦ absurd (cc (given, more))
    ]
  ]

  dequeue-front :
      (c : Channel) (p : ℕ) (e : Engine P L M)
      → (dequeue c e).1 ≡ some p
      → (rest : List ℕ) × (list_of c e.valids ≡ p ∷ rest)
  unfolding dequeue pop
  dequeue-front c p e h = elim (List-cases (list_of c e.valids)) [
    | inl empty ↦ absurd (ground (arith, empty, h))
    | inr (q, rest, front) ↦ (rest, ground (arith, front, h))
  ]

  same_Belongs :
      (c d : Channel) (now q p : ℕ) (e : Engine P L M)
      → Belongs (still_good now q (dequeue c e).0).0 d p
      → Belongs e d p
  unfolding dequeue
  same_Belongs c d now q p e (old, speaks) =
      let s : SameTests (dequeue c e).0 (still_good now q (dequeue c e).0).0 =
        still_good-SameTests now q (dequeue c e).0 in
      (
        omega (arith, old, s.next_address),
        ap (λ x. channel_of x.protocol.value) (sym (s.heap p)) ∙ speaks,
      )

  none_asked : (now : ℕ) (e : Engine P L M) → (get_any_lists shuffle now [] e).1 ≡ again
  unfolding get_any_lists
  none_asked now e = refl

  -- Nothing that a pass of GetAnySOCKS takes comes from a list that it was not asked for.
  pub get_any_lists-Belongs :
      (now p : ℕ) (lists : List Channel) (e : Engine P L M)
      → IsSound tunable e
      → (get_any_lists shuffle now lists e).1 ≡ out p
      → (c : Channel) × Memᴰ c lists × Belongs e c p
  get_any_lists-Belongs now p [] e v h = absurd (cc (h, none_asked now e))
  get_any_lists-Belongs now p (c ∷ lists) e v h = elim (Option-cases (dequeue c e).1) [
    | inl empty ↦
        (let (d, m, b) =
            get_any_lists-Belongs now p lists e v
              (ap (λ r. r.1) (sym (lists_empty shuffle now c lists e empty)) ∙ h) in
          (d, Memᴰ.tail m, b))
    | inr (q, front) ↦
        let f : Engine P L M = (dequeue c e).0 in
        let g : Engine P L M = (still_good now q f).0 in
        let (rest, whole) = dequeue-front c q e front in
        elim (Bool-cases (still_good now q f).1) [
          | inl good ↦
              (let q≡p : q ≡ p =
                  out_inj q p (sym (lists_good shuffle now q c lists e front good) ∙ h) in
                (c, Memᴰ.head refl, subst (Belongs e c) q≡p (front-Belongs c q rest e v whole)))
          | inr bad ↦
              (let taken : IsSound tunable f × Advances e f = dequeue-Safe tunable c e v in
                let tested : IsSound tunable g × Advances f g =
                  still_good-Safe tunable laws shuffle permutes now q f taken.0 in
                let (d, m, b) =
                  get_any_lists-Belongs now p lists g tested.0
                    (ap (λ r. r.1) (sym (lists_bad shuffle now q c lists e front bad)) ∙ h) in
                (d, Memᴰ.tail m, same_Belongs c d now q p e b))
        ]
  ]

  -- Whatever a pass of GetAnySOCKS over some lists hands out, in any state that the engine can reach
  -- from its start around a pool of the default capacity, is a proxy that exists, whose protocol is
  -- that of one of those lists, and that is good at that time.
  pub handed_out_any :
      (start : ℕ) (debug : Debug) (pool : P)
      → ants.cap pool ≡ def_opt.max_workers
      → {e : Engine P L M} → Reach shuffle (engine_with start debug pool) e
      → (now p : ℕ) (lists : List Channel) → (get_any_lists shuffle now lists e).1 ≡ out p
      → (c : Channel) × Memᴰ c lists
        × (p < e.next_address)
        × (channel_of (get_proto (e.heap p)) ≡ some c)
        × IsGood now p e
  unfolding get_proto get
  handed_out_any start debug pool h {e} r now p lists given =
      let v : IsSound tunable e =
        reached-IsSound tunable laws shuffle permutes start debug pool h r in
      let (c, m, (old, speaks)) = get_any_lists-Belongs now p lists e v given in
      (c, m, old, speaks, get_any_lists-IsGood shuffle now p lists e given)

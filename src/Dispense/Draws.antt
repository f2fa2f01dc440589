-- ===== src/Dispense/Draws.antt =====
-- What the getters hand out, and that they do.
use mathlib.Core.List.{Memᴰ}
use prox.Base.{
  ℕ, ◌≡◌, ◌↔◌, refl, ◌∙◌, ap, true, false, List, [], ◌∷◌, ◌++◌, some, pos, add64, arith, length,
  All, All-mono, map, ◌<◌, inl, inr, ◌⊎◌, Bool-cases,
}
use prox.Text.{Bytes}
use prox.Engine.{Engine, Limiter, Plot, Valids}
use prox.Engine.Counters.{dispense}
use prox.Engine.Lists.{Channel, socks5, list_of, with_list, dequeue, pop}
use prox.Dispense.{again, out, still_good, check_drawn, get_socks_round, get_socks_str}
use prox.Dispense.Policy.{IsGood, SameTests, still_good-SameTests, still_good_iff}

pub list_of-with_list : (c : Channel) (l : List ℕ) (v : Valids) → list_of c (with_list c l v) ≡ l
unfolding list_of with_list
list_of-with_list socks5 l v = refl
list_of-with_list _ l v = refl

module _ {P L M : Type 0} where
  dequeue_lem :
      (c : Channel) (e : Engine P L M) {p : ℕ} {rest : List ℕ}
      → list_of c e.valids ≡ p ∷ rest
      → dequeue c e ≡ (record e { valids = with_list c rest e.valids }, some p)
  unfolding dequeue pop
  dequeue_lem c e h = rw h

module _ {P L M : Type 0} ⦃limiter : Limiter L⦄ ⦃plots : Plot M⦄ where
  pub IsGood-SameTests :
      (now p : ℕ) (e f : Engine P L M) → SameTests e f → IsGood now p e → IsGood now p f
  IsGood-SameTests now p e f s g = record {
    free = rw (s.heap p) g.free;
    reliable = rw (s.heap p, s.opt) g.reliable;
    calm = rw (s.heap p, s.bad_prox) g.calm;
    recent = rw (s.heap p, s.opt) g.recent;
  }

  -- The engine once the front of a list is taken.
  abbrev pub taken : Channel → List ℕ → Engine P L M → Engine P L M
  taken c rest e = record e { valids = with_list c rest e.valids }

  pub IsGood-taken :
      (c : Channel) (rest : List ℕ) (now p : ℕ) (e : Engine P L M)
      → IsGood now p e ↔ IsGood now p (taken c rest e)
  IsGood-taken c rest now p e = (
    λ g. record { free = g.free; reliable = g.reliable; calm = g.calm; recent = g.recent },
    λ g. record { free = g.free; reliable = g.reliable; calm = g.calm; recent = g.recent },
  )

  module _ (shuffle : List (Bytes × ℕ) → List (Bytes × ℕ)) where
    check_drawn_good :
        (now p : ℕ) (e : Engine P L M)
        → (still_good now p e).1 ≡ true
        → check_drawn shuffle now (some p) e ≡ (
          record (still_good now p e).0 { stats = dispense (still_good now p e).0.stats },
          out ((still_good now p e).0.heap p).endpoint,
        )
    unfolding check_drawn
    check_drawn_good now p e h = rw h

    check_drawn_bad :
        (now p : ℕ) (e : Engine P L M)
        → (still_good now p e).1 ≡ false
        → check_drawn shuffle now (some p) e ≡ ((still_good now p e).0, again)
    unfolding check_drawn
    check_drawn_bad now p e h = rw h

    get_socks_round_front :
        (c : Channel) (now p : ℕ) (rest : List ℕ) (e : Engine P L M)
        → list_of c e.valids ≡ p ∷ rest
        → get_socks_round shuffle c now e ≡ check_drawn shuffle now (some p) (taken c rest e)
    unfolding get_socks_round
    get_socks_round_front c now p rest e h =
        rw (h, get_socks_round) (rw (dequeue_lem c e h, get_socks_round))

    -- A round of getSocksStr on a list that is not empty takes its front. If that proxy is good, the
    -- round hands its endpoint out and counts one more proxy as dispensed; if not, the loop goes on. In
    -- both cases the rest of the list stays.
    pub get_socks_round_lem :
        (c : Channel) (now p : ℕ) (rest : List ℕ) (e : Engine P L M)
        → list_of c e.valids ≡ p ∷ rest
        → let (e', round) = get_socks_round shuffle c now e in
          (list_of c e'.valids ≡ rest)
          × ((IsGood now p e
                × (round ≡ out (e.heap p).endpoint)
                × (e'.stats.dispensed ≡ add64 e.stats.dispensed (pos 1)))
              ⊎ (¬ IsGood now p e × (round ≡ again) × (e'.stats.dispensed ≡ e.stats.dispensed)))
    get_socks_round_lem c now p rest e h =
        let f : Engine P L M = taken c rest e in
        let s = still_good-SameTests now p f in
        elim (Bool-cases (still_good now p f).1) [
          | inl good ↦
              rw (get_socks_round_front c now p rest e h, check_drawn_good now p f good)
                (
                  ap (list_of c) s.valids ∙ list_of-with_list c rest e.valids,
                  inl (
                    (IsGood-taken c rest now p e).1 ((still_good_iff now p f).0 good),
                    ap (λ x. out x.endpoint) (s.heap p),
                    (unfold dispense in ap (λ n. add64 n (pos 1)) s.dispensed),
                  ),
                )
          | inr bad ↦
              rw (get_socks_round_front c now p rest e h, check_drawn_bad now p f bad)
                (
                  ap (list_of c) s.valids ∙ list_of-with_list c rest e.valids,
                  inr (
                    (λ g. cc (bad, (still_good_iff now p f).1 ((IsGood-taken c rest now p e).0 g))),
                    refl,
                    s.dispensed,
                  ),
                )
        ]

    get_socks_round_cases :
        (c : Channel) (now q : ℕ) (rest : List ℕ) (e : Engine P L M)
        → list_of c e.valids ≡ q ∷ rest
        → let (e', round) = get_socks_round shuffle c now e in
          (round ≡ out (e.heap q).endpoint) ⊎ ((round ≡ again) × SameTests (taken c rest e) e')
    get_socks_round_cases c now q rest e h =
        let f : Engine P L M = taken c rest e in
        elim (Bool-cases (still_good now q f).1) [
          | inl good ↦
              rw (get_socks_round_front c now q rest e h, check_drawn_good now q f good)
                (inl (ap (λ x. out x.endpoint) ((still_good-SameTests now q f).heap q)))
          | inr bad ↦
              rw (get_socks_round_front c now q rest e h, check_drawn_bad now q f bad)
                (inr (refl, still_good-SameTests now q f))
        ]

    -- Nobody else acts.
    abbrev pub quiet : List ℕ → List ((Engine P L M → Engine P L M) × ℕ)
    quiet = map (λ now. ((λ e. e), now))

    get_socks_str_out :
        (c : Channel) (now : ℕ) (times : List ℕ) (e : Engine P L M) {endpoint : Bytes}
        → (get_socks_round shuffle c now e).1 ≡ out endpoint
        → get_socks_str shuffle c (quiet (now ∷ times)) e
          ≡ ((get_socks_round shuffle c now e).0, some endpoint)
    unfolding get_socks_str
    get_socks_str_out c now times e h = rw (h, get_socks_str)

    get_socks_str_again :
        (c : Channel) (now : ℕ) (times : List ℕ) (e : Engine P L M)
        → (get_socks_round shuffle c now e).1 ≡ again
        → get_socks_str shuffle c (quiet (now ∷ times)) e
          ≡ get_socks_str shuffle c (quiet times) (get_socks_round shuffle c now e).0
    unfolding get_socks_str
    get_socks_str_again c now times e h = rw (h, get_socks_str)

    -- getSocksStr returns, as long as nobody else acts, if the list holds a proxy that is good at each
    -- time that the clock shows, and there are more rounds than proxies in front of it. What it returns
    -- is the endpoint of that proxy or of one in front of it.
    pub get_socks_str_returns :
        (c : Channel) (front : List ℕ) (p : ℕ) (back times : List ℕ) (e : Engine P L M)
        → list_of c e.valids ≡ front ++ (p ∷ back)
        → length front < length times
        → All (λ now. IsGood now p e) times
        → (q : ℕ) × Memᴰ q (front ++ (p ∷ []))
          × (r : Engine P L M) × (get_socks_str shuffle c (quiet times) e
              ≡ (r, some (e.heap q).endpoint))
    get_socks_str_returns c front p back [] e h n g = absurd (omega arith)
    get_socks_str_returns c [] p back (now ∷ times) e h n g =
        elim (get_socks_round_lem c now p back e h).1 [
          | inl (good, goes, counted) ↦ (p, Memᴰ.head refl, _, get_socks_str_out c now times e goes)
          | inr (bad, stays, kept) ↦ absurd (bad g.0)
        ]
    get_socks_str_returns c (q ∷ front) p back (now ∷ times) e h n g =
        elim (get_socks_round_cases c now q (front ++ (p ∷ back)) e h) [
          | inl done ↦ (q, Memᴰ.head refl, _, get_socks_str_out c now times e done)
          | inr (more, s) ↦
              let e' : Engine P L M = (get_socks_round shuffle c now e).0 in
              let (k, m, r, f) =
                get_socks_str_returns c front p back times e'
                  (ap (list_of c) s.valids ∙ list_of-with_list c (front ++ (p ∷ back)) e.valids)
                  (omega arith)
                  (All-mono (λ t. IsGood t p e) (λ t. IsGood t p e')
                    (λ t i. IsGood-SameTests t p (taken c _ e) e' s ((IsGood-taken c _ t p e).0 i))
                    times g.1) in
              (
                k,
                Memᴰ.tail m,
                r,
                get_socks_str_again c now times e more
                    ∙ f
                    ∙ ap (λ x. (r, some x.endpoint)) (s.heap k),
              )
        ]

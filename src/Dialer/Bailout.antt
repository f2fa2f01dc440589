-- ===== src/Dialer/Bailout.antt =====
-- How many dials a dial makes at most.
use prox.Base.{
  true, false, ℕ, ◌+◌, ◌≤◌, ◌≡◌, ap, subst, ◌∙◌, List, [], ◌∷◌, pos, ltb_ℤ, arith, All, Bool-cases,
  Option-cases, inl, inr, refl, Bool, Option, none, some,
}
use prox.Text.{Bytes}
use prox.Scaler.{Ants}
use prox.Engine.{Engine, Limiter, Plot}
use prox.Engine.Options.{get_dialer_bailout, proxy_string}
use prox.Scale.{scale}
use prox.Dialer.{
  answered, Outside, Moment, Place, outer, inner, Next, goes, ends, Popped, holds, nothing,
  first_alarm, outer_round, inner_round, round, pop_sock_and_lock, after_pop, try_proxy, dial_with,
}
use prox.Dialer.Heap.{next_cases}
use prox.Dialer.Options.{IsSteady, round-opt}

abbrev pub count_of : Place → ℕ
count_of (outer count) = count
count_of (inner count) = count

-- The places that the bailout allows.
abbrev pub IsWithin : ℕ → Place → Type 0
IsWithin bailout (outer count) = count ≤ bailout + 1
IsWithin bailout (inner count) = count ≤ bailout

-- The loops go on to a place that the bailout allows, with the dials that failed added to the count; or
-- they end, which they do with no failed dial.
abbrev NextWithin : ℕ → ℕ → ℕ → Next → Type 0
NextWithin bailout count fails (goes place) =
    IsWithin bailout place × (count_of place ≡ count + fails)
NextWithin bailout count fails (ends outcome) = fails ≡ 0

bounded : (bailout : ℕ) (place : Place) → IsWithin bailout place → count_of place ≤ bailout + 1
bounded bailout (outer count) w = w
bounded bailout (inner count) w = omega arith

abbrev pub refusals : Option Bytes → ℕ
refusals none = 0
refusals (some err) = 1

-- The same behind the middleware's answer.
abbrev pub answer_fails : Outside → Bytes → Bytes → Bytes → Option ℕ × Bool → ℕ
answer_fails world network addr socks (some q, true) =
    refusals (world.socks_dial socks network addr)
answer_fails world network addr socks _ = 0

module _ {P L M : Type 0} ⦃ants : Ants P⦄ ⦃limiter : Limiter L⦄ ⦃plots : Plot M⦄
    (shuffle : List (Bytes × ℕ) → List (Bytes × ℕ)) (world : Outside) (network addr : Bytes) where
  -- The calls of the SOCKS client that fail when a proxy is tried, in the last part of a round, in a round
  -- and in a run of the loops; the loops' own count is not used.
  abbrev pub try_fails : ℕ → Engine P L M → ℕ
  try_fails p e =
      answer_fails world network addr (proxy_string e.opt (e.heap p)) (world.middleware p)

  abbrev pub pop_fails : Engine P L M × Popped → ℕ
  pop_fails (e, holds p) = try_fails p e
  pop_fails (e, _) = 0

  abbrev pub scaled_fails : Moment P L M → Option (Engine P L M × Bool) → ℕ
  scaled_fails moment none = 0
  scaled_fails moment (some (f, sleep)) = pop_fails (pop_sock_and_lock shuffle moment f)

  abbrev pub round_fails : Moment P L M → Place → Engine P L M → ℕ
  round_fails moment (outer count) e = 0
  round_fails moment (inner count) e = scaled_fails moment (scale moment.now e)

  unfoldable pub failed_dials : List (Moment P L M) → Place → Engine P L M → ℕ
  failed_dials [] place e = 0
  failed_dials (moment ∷ schedule) place e =
      let f : Engine P L M = moment.others e in
      let (e', next) = round shuffle world network addr moment place f in
      round_fails moment place f
      + elim next [ goes place' ↦ failed_dials schedule place' e' | ends outcome ↦ 0 ]

  dial_with-Within :
      (bailout count q : ℕ) (socks : Bytes) (e : Engine P L M)
      → count ≤ bailout
      → NextWithin bailout count
          (refusals (world.socks_dial socks network addr))
          (dial_with world network addr socks count q e).1
  unfolding dial_with
  dial_with-Within bailout count q socks e h =
      elim (Option-cases (world.socks_dial socks network addr)) [
        | inl fine ↦ rw (fine, dial_with) refl
        | inr (err, bad) ↦ rw (bad, dial_with) (omega arith, omega arith)
      ]

  answered-Within :
      (bailout count : ℕ) (socks : Bytes) (m : Option ℕ × Bool) (e : Engine P L M)
      → count ≤ bailout
      → NextWithin bailout count
          (answer_fails world network addr socks m)
          (answered world network addr socks count m e).1
  unfolding answered
  answered-Within bailout count socks (some q, true) e h =
      dial_with-Within bailout count q socks e h
  answered-Within bailout count socks (some q, false) e h = (omega arith, omega arith)
  answered-Within bailout count socks (none, true) e h = refl
  answered-Within bailout count socks (none, false) e h = refl

  try_proxy-Within :
      (bailout count p : ℕ) (e : Engine P L M)
      → count ≤ bailout
      → NextWithin bailout count (try_fails p e) (try_proxy world network addr count p e).1
  unfolding try_proxy
  try_proxy-Within bailout count p e h =
      answered-Within bailout count (proxy_string e.opt (e.heap p)) (world.middleware p) e h

  after_pop-Within :
      (bailout count : ℕ) (r : Engine P L M × Popped)
      → count ≤ bailout
      → NextWithin bailout count (pop_fails r) (after_pop shuffle world network addr count r).1
  unfolding after_pop
  after_pop-Within bailout count (e, holds p) h = try_proxy-Within bailout count p e h
  after_pop-Within bailout count (e, nothing) h = (h, omega arith)
  after_pop-Within bailout count (e, _) h = refl

  inner_round-Within :
      (bailout count : ℕ) (moment : Moment P L M) (e : Engine P L M)
      → count ≤ bailout
      → NextWithin bailout count
          (scaled_fails moment (scale moment.now e))
          (inner_round shuffle world network addr moment count e).1
  unfolding inner_round
  inner_round-Within bailout count moment e h = elim (Option-cases (scale moment.now e)) [
    | inl panic ↦ rw (panic, inner_round) refl
    | inr ((f, sleep), done) ↦
        rw (done, inner_round)
          (after_pop-Within bailout count (pop_sock_and_lock shuffle moment f) h)
  ]

  outer_round-Within :
      (bailout count : ℕ) (moment : Moment P L M) (e : Engine P L M)
      → get_dialer_bailout e ≡ pos bailout
      → NextWithin bailout count 0 (outer_round moment count e).1
  unfolding outer_round
  outer_round-Within bailout count moment e h =
      elim (Bool-cases (ltb_ℤ (get_dialer_bailout e) (pos count))) [
        | inl over ↦ rw over refl
        | inr below ↦ elim (Bool-cases moment.cancelled) [
          | inl stop ↦ rw (below, stop) refl
          | inr go_on ↦ elim (Option-cases (first_alarm moment e moment.order)) [
            | inl quiet ↦
                rw (below, go_on, quiet, outer_round) (ground (arith, h, below), omega arith)
            | inr (a, rings) ↦ rw (below, go_on, rings, outer_round) refl
          ]
        ]
      ]

  round-Within :
      (bailout : ℕ) (moment : Moment P L M) (place : Place) (e : Engine P L M)
      → get_dialer_bailout e ≡ pos bailout
      → IsWithin bailout place
      → NextWithin bailout
          (count_of place)
          (round_fails moment place e)
          (round shuffle world network addr moment place e).1
  round-Within bailout moment (outer count) e h w = outer_round-Within bailout count moment e h
  round-Within bailout moment (inner count) e h w = inner_round-Within bailout count moment e w

  -- From a place with `count` failed dials behind it, and with a bailout that is not negative, the calls
  -- of the SOCKS client that fail in a run of the loops are at most so many that `count` and they are
  -- together the bailout and one, whatever the schedule is, if the others leave the options alone
  -- meanwhile.
  pub failed_dials-bounded :
      (bailout : ℕ) (schedule : List (Moment P L M)) (place : Place) (e : Engine P L M)
      → get_dialer_bailout e ≡ pos bailout
      → All IsSteady schedule
      → IsWithin bailout place
      → count_of place + failed_dials schedule place e ≤ bailout + 1
  unfolding failed_dials
  failed_dials-bounded bailout [] place e h steady w = omega (arith, bounded bailout place w)
  failed_dials-bounded bailout (moment ∷ schedule) place e h steady w =
      let r : Engine P L M × Next =
        round shuffle world network addr moment place (moment.others e) in
      let opt : r.0.opt ≡ e.opt =
        round-opt shuffle world network addr moment place (moment.others e) steady.0
        ∙ steady.0.outside e in
      let f : Engine P L M = moment.others e in
      let next : NextWithin bailout (count_of place) (round_fails moment place f) r.1 =
        round-Within bailout moment place f (ap (λ o. o.dialer_bailout) (steady.0.outside e) ∙ h)
          w in
      elim (next_cases r.1) [
        | inl (place', more) ↦
            let within : NextWithin bailout (count_of place) (round_fails moment place f)
                (goes place') =
              subst (NextWithin bailout (count_of place) (round_fails moment place f)) more next in
            let later : count_of place' + failed_dials schedule place' r.0 ≤ bailout + 1 =
              failed_dials-bounded bailout schedule place' r.0 (ap (λ o. o.dialer_bailout) opt ∙ h)
                steady.1 within.0 in
            rw (more, failed_dials) (omega (arith, within.1, later))
        | inr (outcome, done) ↦
            let none_failed : round_fails moment place f ≡ 0 =
              subst (NextWithin bailout (count_of place) (round_fails moment place f)) done next in
            rw (done, failed_dials) (omega (arith, bounded bailout place w, none_failed))
      ]

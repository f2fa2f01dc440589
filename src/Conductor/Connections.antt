-- ===== src/Conductor/Connections.antt =====
-- conductor.go: CloseAllConns. A round of its loop is one `select`: what the others do before it, whether
-- the ticker has fired, and the order in which it looks at its channels. A `select` that finds nothing
-- ready waits for the next round.
use mathlib.Core.Bool.{true≢false}
use mathlib.Core.List.{Memᴰ}
use mathlib.Core.List.Memᴰ
use prox.Base.{
  ◌≡◌, refl, ap, subst, sym, ◌∙◌, Bool, true, false, not, List, [], ◌∷◌, Option, none, some, arith,
  if◌then◌else◌, Bool-cases, inl, inr, ◌⊎◌,
}
use prox.Debug.{printf}
use prox.Engine.{Engine}

-- The cases of the `select`.
pub data Case : Type 0 where
  kills closed timed_out : Case

pub record Watch (P L M : Type 0) : Type 0 where
  pub others : Engine P L M → Engine P L M
  pub expired : Bool
  pub order : List Case

module _ {P L M : Type 0} where
  abbrev pub is_ready : Watch P L M → Engine P L M → Case → Bool
  is_ready watch e kills = not e.con_killer
  is_ready watch e closed = e.ctx_done
  is_ready watch e timed_out = watch.expired

  unfoldable pub first_ready : Watch P L M → Engine P L M → List Case → Option Case
  first_ready watch e [] = none
  first_ready watch e (c ∷ rest) =
      let later : Option Case = first_ready watch e rest in
      if is_ready watch e c then some c else later

  -- The body of a case, and whether it returns. The reset of the ticker is left out, since whether it has
  -- fired in a round comes from outside.
  unfoldable pub run_case : Option Case → Engine P L M → Engine P L M × Bool
  run_case none e = (e, false)
  run_case (some kills) e =
      (record e { con_killer = true; debug = printf "killed a connection" [] e.debug }, false)
  run_case (some closed) e = (e, true)
  run_case (some timed_out) e = (e, true)

  -- The deferred send, which gives up if the buffer is full.
  abbrev pub leave : Engine P L M → Engine P L M
  leave e = record e { con_killer = true }

  -- CloseAllConns; the Boolean tells whether it has returned.
  unfoldable pub close_all_conns : List (Watch P L M) → Engine P L M → Engine P L M × Bool
  close_all_conns [] e = (e, false)
  close_all_conns (watch ∷ schedule) e =
      let now : Engine P L M = watch.others e in
      let (e', done) = run_case (first_ready watch now watch.order) now in
      let later : Engine P L M × Bool = close_all_conns schedule e' in
      if done then (leave e', true) else later

  left_full :
      (b : Bool) (e : Engine P L M) (later : Engine P L M × Bool)
      → (later.1 ≡ true → later.0.con_killer ≡ true)
      → (if b then (leave e, true) else later).1 ≡ true
      → (if b then (leave e, true) else later).0.con_killer ≡ true
  left_full true e later h r = refl
  left_full false e later h r = h r

  -- Whenever CloseAllConns returns, it leaves a kill in the buffer of `conKiller`.
  pub close_all_conns-full :
      (schedule : List (Watch P L M)) (e : Engine P L M)
      → (close_all_conns schedule e).1 ≡ true
      → (close_all_conns schedule e).0.con_killer ≡ true
  unfolding close_all_conns
  close_all_conns-full [] e h = cc
  close_all_conns-full (watch ∷ schedule) e h =
      let now : Engine P L M = watch.others e in
      let r : Engine P L M × Bool = run_case (first_ready watch now watch.order) now in
      left_full r.1 r.0 (close_all_conns schedule r.0) (close_all_conns-full schedule r.0) h

  -- Nobody else acts, the ticker has fired, and the `select` looks at it.
  pub record IsDue (watch : Watch P L M) : Type 0 where
    pub quiet : (e : Engine P L M) → watch.others e ≡ e
    pub fired : watch.expired ≡ true
    pub looks : Memᴰ timed_out watch.order

  first_ready-some :
      (watch : Watch P L M) (order : List Case) (e : Engine P L M)
      → watch.expired ≡ true
      → Memᴰ timed_out order
      → (c : Case) × (first_ready watch e order ≡ some c) × (is_ready watch e c ≡ true)
  unfolding first_ready
  first_ready-some watch [] e fired m = absurd (Memᴰ.not-nil m)
  first_ready-some watch (c ∷ rest) e fired m = elim (Bool-cases (is_ready watch e c)) [
    | inl here ↦ (c, rw here refl, here)
    | inr idle ↦ elim m [
      | Memᴰ.head h ↦ absurd (true≢false (sym fired ∙ ap (is_ready watch e) h ∙ idle))
      | Memᴰ.tail m' ↦
          let (d, first, ready) = first_ready-some watch rest e fired m' in
          (d, rw idle first, ready)
    ]
  ]

  -- A case returns, or fills the buffer where it was empty.
  Ends : Engine P L M → Engine P L M × Bool → Type 0
  Ends e (f, done) = (done ≡ true) ⊎ ((e.con_killer ≡ false) × (f.con_killer ≡ true))

  run_case-Ends :
      (watch : Watch P L M) (c : Case) (e : Engine P L M)
      → is_ready watch e c ≡ true
      → Ends e (run_case (some c) e)
  unfolding run_case Ends
  run_case-Ends watch kills e ready = inr (ground arith, refl)
  run_case-Ends watch closed e ready = inl refl
  run_case-Ends watch timed_out e ready = inl refl

  due_case :
      (watch : Watch P L M) (e : Engine P L M)
      → IsDue watch
      → Ends e (run_case (first_ready watch e watch.order) e)
  due_case watch e d =
      let (c, first, ready) = first_ready-some watch watch.order e d.fired d.looks in
      subst (λ o. Ends e (run_case o e)) (sym first) (run_case-Ends watch c e ready)

  -- One round in full.
  round_of : Watch P L M → Engine P L M → Engine P L M × Bool
  round_of watch e = run_case (first_ready watch (watch.others e) watch.order) (watch.others e)

  round_done :
      (watch : Watch P L M) (schedule : List (Watch P L M)) (e : Engine P L M)
      → (round_of watch e).1 ≡ true
      → (close_all_conns (watch ∷ schedule) e).1 ≡ true
  unfolding close_all_conns round_of
  round_done watch schedule e done = rw done refl

  round_on :
      (b : Bool) (x : Engine P L M × Bool) (y : Engine P L M)
      → x.1 ≡ true
      → (if b then (leave y, true) else x).1 ≡ true
  round_on true x y h = refl
  round_on false x y h = h

  -- CloseAllConns returns by its second round at the latest, once the ticker has fired and nobody else
  -- acts: in the first round it returns or fills the buffer, and a full buffer takes no other kill.
  pub close_all_conns_returns :
      (first second : Watch P L M) (schedule : List (Watch P L M)) (e : Engine P L M)
      → IsDue first
      → IsDue second
      → (close_all_conns (first ∷ second ∷ schedule) e).1 ≡ true
  unfolding close_all_conns round_of Ends
  close_all_conns_returns first second schedule e d f =
      let r : Engine P L M × Bool = round_of first e in
      elim (due_case first (first.others e) d) [
        | inl done ↦ round_done first (second ∷ schedule) e done
        | inr (empty, full) ↦ elim (due_case second (second.others r.0) f) [
          | inl done ↦
              round_on r.1 (close_all_conns (second ∷ schedule) r.0) r.0
                (round_done second schedule r.0 done)
          | inr (free, _) ↦
              absurd (true≢false (sym full ∙ ap (λ g. g.con_killer) (sym (f.quiet r.0)) ∙ free))
        ]
      ]

-- ===== src/Daemons/Recycling.antt =====
-- What the recycler puts on Pending.
use mathlib.Core.List.{Perm}
use mathlib.Core.List.Perm
use prox.Base.{
  ℕ, ◌+◌, ◌≡◌, ◌∙◌, true, false, List, [], ◌∷◌, ◌++◌, map, arith, length, append-nil, append_assoc,
  pos, ◌≤ℤ◌, Bool-cases, inl, inr,
}
use prox.Text.{Bytes}
use prox.Engine.{Engine, Plot}
use prox.Engine.Lists.{add}
use prox.Daemons.{push_all, tuples_of, recycle_all, recycling}

-- The addresses in a list of tuples.
abbrev pub addresses : List (Bytes × ℕ) → List ℕ
addresses = map (λ t. t.1)

push_all_eq :
    (tuples : List (Bytes × ℕ)) (pending : List ℕ) (count : ℕ)
    → push_all tuples pending count ≡ (pending ++ addresses tuples, count + length tuples)
unfolding push_all add
push_all_eq [] pending count = ground (arith, append-nil pending)
push_all_eq ((k, p) ∷ rest) pending count =
    push_all_eq rest (pending ++ (p ∷ [])) (count + 1)
    ∙ ground (arith, append_assoc pending (p ∷ []) (addresses rest))

module _ {P L M : Type 0} ⦃plots : Plot M⦄ (shuffle : List (Bytes × ℕ) → List (Bytes × ℕ)) where
  -- The recycler runs to the end.
  abbrev pub Recycles : Engine P L M → Type 0
  Recycles e =
      (e.recycle_held ≡ false)
      × (e.opt.recycle ≡ true)
      × (pos 1 ≤ℤ plots.count e.plot)
      × (e.recycle_tick ≡ true)

  pub recycle_all_eq :
      (e : Engine P L M)
      → recycle_all shuffle e ≡ (
        record e { pending = e.pending ++ addresses (tuples_of shuffle e); recycle_tick = false },
        length (tuples_of shuffle e),
      )
  unfolding recycle_all
  recycle_all_eq e = ground (arith, push_all_eq (tuples_of shuffle e) e.pending 0)

  pub tuples_of-perm :
      ((l : List (Bytes × ℕ)) → Perm (shuffle l) l)
      → (e : Engine P L M) → Perm (tuples_of shuffle e) (plots.entries e.plot)
  unfolding tuples_of
  tuples_of-perm permutes e = elim (Bool-cases e.opt.shuffle) [
    | inl on ↦ rw on (permutes (plots.entries e.plot))
    | inr off ↦ rw off (Perm.refl (plots.entries e.plot))
  ]

  recycling_runs : (e : Engine P L M) → Recycles e → recycling shuffle e ≡ recycle_all shuffle e
  unfolding recycling
  recycling_runs e r = ground arith

  -- Where its mutex is free, recycling is on, the map is not empty and a tick waits, the recycler uses
  -- the tick up, appends the addresses of all the map's entries to Pending, in some order as long as
  -- the random source permutes them, and returns their number. It changes nothing else.
  pub recycling_lem :
      ((l : List (Bytes × ℕ)) → Perm (shuffle l) l)
      → (e : Engine P L M) → Recycles e
      → (tuples : List (Bytes × ℕ)) × Perm tuples (plots.entries e.plot)
        × (recycling shuffle e ≡ (
          record e { pending = e.pending ++ addresses tuples; recycle_tick = false },
          length tuples,
        ))
  recycling_lem permutes e r =
      (tuples_of shuffle e, tuples_of-perm permutes e, recycling_runs e r ∙ recycle_all_eq e)

  -- Where one of the four does not hold, the recycler changes nothing and returns zero.
  pub recycling_idle : (e : Engine P L M) → ¬ Recycles e → recycling shuffle e ≡ (e, 0)
  unfolding recycling
  recycling_idle e h = elim (Bool-cases e.recycle_held) [
    | inl held ↦ rw held
    | inr free ↦ elim (Bool-cases e.recycle_tick) [
      | inl tick ↦ ground (arith, h)
      | inr dry ↦ ground arith
    ]
  ]

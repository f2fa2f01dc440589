-- ===== src/System/Histories.antt =====
-- The loops of dispense.go as histories of steps: their schedules, with whatever the others do, are made
-- of the steps of the engine.
use mathlib.Core.List.{Perm}
use prox.Base.{
  ℕ, ◌≡◌, refl, Bool, true, false, List, [], ◌∷◌, Option, none, some, inl, inr, All, if◌then◌else◌,
}
use prox.Text.{Bytes}
use prox.Scaler.{Ants}
use prox.Scaler.Bounds.{IsTunable}
use prox.Engine.{Engine, Limiter, Plot}
use prox.Engine.Counters.{dispense}
use prox.Engine.Lists.{Channel}
use prox.Daemons.MapLaws.{PlotLaws}
use prox.Dispense.{get_any_lists, get_any_socks}
use prox.Dialer.Heap.{round_cases}
use prox.System.{Internet, Reach, unmoved, moved, hands_any, logs}
use prox.System.Sound.{IsSound, Belongs, Advances-Belongs}
use prox.System.Steps.{Reach-Safe}
use prox.System.Handed.{get_any_lists-Belongs}

module _ ⦃internet : Internet⦄ {P L M : Type 0} ⦃ants : Ants P⦄ ⦃limiter : Limiter L⦄
    ⦃plots : Plot M⦄ (shuffle : List (Bytes × ℕ) → List (Bytes × ℕ)) where
  pub Reach-trans :
      {e f g : Engine P L M} → Reach shuffle e f → Reach shuffle f g → Reach shuffle e g
  Reach-trans r unmoved = r
  Reach-trans r (moved s step) = moved (Reach-trans r s) step

  module _ (tunable : IsTunable ants) (laws : PlotLaws plots)
      (permutes : (l : List (Bytes × ℕ)) → Perm (shuffle l) l) where
    -- What the others do is a history of steps.
    abbrev pub IsHistory : (Engine P L M → Engine P L M) → Type 0
    IsHistory others = (e : Engine P L M) → IsSound tunable e → Reach shuffle e (others e)

    pub Reach-IsSound :
        {e f : Engine P L M} → Reach shuffle e f → IsSound tunable e → IsSound tunable f
    Reach-IsSound {e} {f} r v = (Reach-Safe tunable laws shuffle permutes e f r v).0

    -- A proxy that was drawn belongs on a list.
    abbrev pub Drawn : Engine P L M × Option (Option ℕ) → Type 0
    Drawn (f, some (some p)) = (c : Channel) × Belongs f c p
    Drawn (f, some none) = Unit
    Drawn (f, none) = Unit

    abbrev Draws : Engine P L M → Engine P L M × Option (Option ℕ) → Type 0
    Draws e r = Reach shuffle e r.0 × Drawn r

    if-Draws :
        (b : Bool) (e : Engine P L M) (x y : Engine P L M × Option (Option ℕ))
        → Draws e x
        → (b ≡ false → Draws e y)
        → Draws e (if b then x else y)
    if-Draws true e x y h k = h
    if-Draws false e x y h k = k refl

    pub get_any_socks-Draws :
        (draws : List ((Engine P L M → Engine P L M) × List Channel × ℕ)) (e : Engine P L M)
        → All (λ d. IsHistory d.0) draws
        → IsSound tunable e
        → Draws e (get_any_socks shuffle draws e)
    unfolding get_any_socks
    get_any_socks-Draws [] e h v = (unmoved, tt)
    get_any_socks-Draws ((others, lists, now) ∷ draws) e h v =
        let f : Engine P L M = others e in
        let g : Engine P L M = (get_any_lists shuffle now lists f).0 in
        let r : Reach shuffle e f = h.0 e v in
        let w : IsSound tunable f = Reach-IsSound r v in
        let s : Reach shuffle f g = moved unmoved (hands_any now lists refl) in
        if-Draws f.ctx_done e _ _ (moved r (logs f.debug (dispense f.stats) refl), tt)
          (λ alive. elim (round_cases (get_any_lists shuffle now lists f).1) [
            | inl more ↦
                let (t, drawn) = get_any_socks-Draws draws g h.1 (Reach-IsSound s w) in
                rw (more, get_any_socks) (Reach-trans (Reach-trans r s) t, drawn)
            | inr (p, given) ↦
                let (c, m, b) =
                  get_any_lists-Belongs tunable laws shuffle permutes now p lists f w given in
                let later : Belongs g c p =
                  Advances-Belongs tunable f g w
                    (Reach-Safe tunable laws shuffle permutes f g s w).1 c p b in
                rw (given, get_any_socks)
                  (moved (Reach-trans r s) (logs g.debug (dispense g.stats) refl), (c, later))
          ])

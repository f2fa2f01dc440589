-- ===== src/System/Steps.antt =====
-- Every step keeps the invariant, and a new engine has it.
use mathlib.Core.List.{Perm}
use prox.Base.{
  wrap64, ◌+ℤ◌, ℕ, ◌≡◌, refl, ap, sym, ◌∙◌, subst, List, some, inl, inr, arith, All, ℤ, pos, add64,
}
use prox.Text.{Bytes}
use prox.Scaler.{Ants, new_auto_scaler}
use prox.Scaler.Bounds.{IsTunable}
use prox.Scaler.Upright.{IsUpright}
use prox.Debug.{Debug}
use prox.Engine.{Engine, Limiter, Plot, def_opt, engine_with, no_valids}
use prox.Engine.Lists.{Channel, socks5, socks4, socks4a, http, list_of}
use prox.Daemons.MapLaws.{PlotLaws}
use prox.System.{
  Internet, Step, Reach, unmoved, moved, loads, reads, clears, configures, enables, disables,
  sets_threshold, sets_max, sets_workers, conducts, times, spawns, boots, halts, validates, begins,
  limits, probes, finds, concludes, rejects, releases, hands_out, hands_any, recycles, logs,
  signals, ticks, takes, dials,
}
use prox.System.Sound.{
  set_lock-Framed, limits-Framed, aside-Framed, signals-Framed, Belongs, Advances, Advances-trans,
  IsSound, Safe, Safe-refl, Framed-Safe,
}
use prox.System.Loads.{load_filtered-Safe, load_proxy_txt-Safe, clear_socks_list-Safe}
use prox.System.Draws.{recycling-Safe, get_socks_round-Safe, get_any_lists-Safe}
use prox.Proxy.{locked, unlocked}
use prox.System.Checks.{
  single_proxy_check-Framed, note_protocol-Framed, mark_bad-Framed, conclude-Safe, validate-Safe,
}
use prox.System.Parts.{conduct-Framed, try_proxy-Framed, lock_or_requeue-Safe}
use prox.System.Resized.{
  enable_auto_scaler-Safe, disable_auto_scaler-Safe, set_auto_scaler_threshold-Safe,
  set_auto_scaler_max_scale-Safe, set_max_workers-Safe,
}
use prox.System.Turns.{spawner_starts-Safe, spawner_stops-Safe, scale-Safe, spawner_round-Safe}

some_inj : {A : Type 0} (x y : A) → some x ≡ some y → x ≡ y
some_inj x y h = cc h

no_valids-All : (Q : ℕ → Type 0) (c : Channel) → All Q (list_of c no_valids)
unfolding list_of
no_valids-All Q socks5 = tt
no_valids-All Q socks4 = tt
no_valids-All Q socks4a = tt
no_valids-All Q http = tt

abbrev pub default_max : ℤ
default_max = add64 def_opt.max_workers (pos 100)

default_max_eq : default_max ≡ pos 120
unfolding def_opt add64 wrap64 ◌+ℤ◌
default_max_eq = refl

new_scaler-IsUpright : IsUpright (new_auto_scaler def_opt.max_workers default_max (pos 50))
unfolding new_auto_scaler
new_scaler-IsUpright = record {
  nonneg = refl;
  ranged = omega arith;
  max_ranged = ground (arith, default_max_eq);
}

module _ ⦃internet : Internet⦄ {P L M : Type 0} ⦃ants : Ants P⦄ ⦃limiter : Limiter L⦄
    ⦃plots : Plot M⦄ (tunable : IsTunable ants) (laws : PlotLaws plots)
    (shuffle : List (Bytes × ℕ) → List (Bytes × ℕ))
    (permutes : (l : List (Bytes × ℕ)) → Perm (shuffle l) l) where
  rewound : (e f g : Engine P L M) → f ≡ g → Safe tunable e g → Safe tunable e f
  rewound e f g h s = subst (Safe tunable e) (sym h) s

  Step-Safe : (e f : Engine P L M) → Step shuffle e f → Safe tunable e f
  Step-Safe e f (loads line h) = rewound e f _ h (load_filtered-Safe tunable laws line e)
  Step-Safe e f (reads file h) = rewound e f _ h (load_proxy_txt-Safe tunable laws file e)
  Step-Safe e f (clears h) = rewound e f _ h (clear_socks_list-Safe tunable laws e)
  Step-Safe e f (configures opt h) = rewound e f _ h (
      Framed-Safe tunable e _ (record {
        endpoints = λ a. refl;
        protocols = λ a. inl refl;
        next_address = refl;
        plot = refl;
        pending = refl;
        scaler = refl;
        pool = refl;
        valids = refl;
      }))
  Step-Safe e f (enables h) = rewound e f _ h (enable_auto_scaler-Safe tunable e)
  Step-Safe e f (disables h) = rewound e f _ h (disable_auto_scaler-Safe tunable e)
  Step-Safe e f (sets_threshold threshold h) =
      rewound e f _ h (set_auto_scaler_threshold-Safe tunable threshold e)
  Step-Safe e f (sets_max max fits h) =
      rewound e f _ h (set_auto_scaler_max_scale-Safe tunable max e fits)
  Step-Safe e f (sets_workers num h) = rewound e f _ h (set_max_workers-Safe tunable num e)
  Step-Safe e f (conducts c h) = rewound e f _ h (Framed-Safe tunable e _ (conduct-Framed c e))
  Step-Safe e f (times s r h) = rewound e f _ h (
      Framed-Safe tunable e _ (record {
        endpoints = λ a. refl;
        protocols = λ a. inl refl;
        next_address = refl;
        plot = refl;
        pending = refl;
        scaler = refl;
        pool = refl;
        valids = refl;
      }))
  Step-Safe e f (boots h) = rewound e f _ h (spawner_starts-Safe tunable e)
  Step-Safe e f (halts h) = rewound e f _ h (spawner_stops-Safe tunable e)
  Step-Safe e f (spawns refusal now turn h) = λ v.
      let (r, done, w, a) = spawner_round-Safe tunable laws shuffle refusal permutes now e v in
      let same : r.0 ≡ f = ap (λ x. x.0) (some_inj r (f, turn) (sym done ∙ h)) in
      (subst (IsSound tunable) same w, subst (Advances e) same a)
  Step-Safe e f (validates net cancelled order now p shown old h) =
      rewound e f _ h (validate-Safe tunable net cancelled order now p e shown old)
  Step-Safe e f (begins p h) =
      rewound e f _ h (Framed-Safe tunable e _ (set_lock-Framed p locked e))
  Step-Safe e f (limits used bad h) =
      rewound e f _ h (Framed-Safe tunable e _ (limits-Framed used bad e.stats e))
  Step-Safe e f (probes net p protocol h) =
      rewound e f _ h (Framed-Safe tunable e _ (single_proxy_check-Framed net p protocol e))
  Step-Safe e f (finds p protocol spoke h) =
      rewound e f _ h (Framed-Safe tunable e _ (note_protocol-Framed p protocol e spoke))
  Step-Safe e f (concludes now p old h) = rewound e f _ h (conclude-Safe tunable now p e old)
  Step-Safe e f (rejects p h) = rewound e f _ h (Framed-Safe tunable e _ (mark_bad-Framed p e))
  Step-Safe e f (releases p h) =
      rewound e f _ h (Framed-Safe tunable e _ (set_lock-Framed p unlocked e))
  Step-Safe e f (hands_out c now h) =
      rewound e f _ h (get_socks_round-Safe tunable laws shuffle permutes c now e)
  Step-Safe e f (hands_any now lists h) =
      rewound e f _ h (get_any_lists-Safe tunable laws shuffle permutes now lists e)
  Step-Safe e f (recycles h) = rewound e f _ h (recycling-Safe tunable laws shuffle permutes e)
  Step-Safe e f (logs debug stats h) =
      rewound e f _ h (Framed-Safe tunable e _ (aside-Framed debug stats e.recycle_tick e))
  Step-Safe e f (signals full h) = rewound e f _ h (Framed-Safe tunable e _ (signals-Framed full e))
  Step-Safe e f (ticks now sleep h) = λ v.
      let (r, done, w, a) = scale-Safe tunable now e v in
      let same : r.0 ≡ f = ap (λ x. x.0) (some_inj r (f, sleep) (sym done ∙ h)) in
      (subst (IsSound tunable) same w, subst (Advances e) same a)
  Step-Safe e f (takes p old h) = rewound e f _ h (lock_or_requeue-Safe tunable p e old)
  Step-Safe e f (dials world network addr count p h) =
      rewound e f _ h (Framed-Safe tunable e _ (try_proxy-Framed world network addr count p e))

  pub Reach-Safe : (e f : Engine P L M) → Reach shuffle e f → Safe tunable e f
  Reach-Safe e e' unmoved = Safe-refl tunable e
  Reach-Safe e g (moved {f} r s) = λ v.
      let (w, a) = Reach-Safe e f r v in
      let (x, b) = Step-Safe f g s w in (x, Advances-trans e f g a b)

  pub engine_with-IsSound :
      (now : ℕ) (debug : Debug) (pool : P)
      → ants.cap pool ≡ def_opt.max_workers
      → IsSound tunable (engine_with {P = P} {L = L} {M = M} now debug pool)
  unfolding engine_with list_of
  engine_with-IsSound now debug pool h = record {
    known = record {
      exists = λ k p g. absurd (cc (g, laws.get-new k));
      keyed = λ k p g. absurd (cc (g, laws.get-new k));
      queued = tt;
    };
    listed = λ c. no_valids-All (Belongs {L = L} {M = M} (engine_with now debug pool) c) c;
    once = λ a. inr refl;
    upright = new_scaler-IsUpright;
  }

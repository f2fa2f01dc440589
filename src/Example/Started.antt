-- ===== src/Example/Started.antt =====
-- example/main.go, init: how the program's start ends.
use prox.Base.{
  ℕ, zero, suc, add64, wrap64, ◌+ℤ◌, ◌<◌, ◌≡◌, refl, ◌∙◌, true, false, List, [], ◌∷◌, none, some,
  inl, inr, ◌⊎◌, if_false, ltb, pos, arith,
}
use prox.Text.{Bytes}
use prox.Scaler.{Ants}
use prox.Debug.{Debug, enable_debug, set_debug_logger}
use prox.Engine.{Engine, Limiter, Plot, def_opt, engine_with, state_new}
use prox.Engine.Options.{
  is_running, set_max_workers, disable_debug_redaction, enable_auto_scaler, tune_workers,
}
use prox.Daemons.{map_add}
use prox.Load.{
  FileRead, failed, contents, load_proxy_txt, load_lines, load_single_proxy, load_multi_line_string,
  scan,
}
use prox.Conductor.{start, start_engine, start_daemons}
use prox.System.{
  Internet, Reach, unmoved, moved, sets_workers, logs, configures, enables, reads, conducts,
}
use prox.Example.{Boot, boots, exits, boot, started, configured}

module _ {P L M : Type 0} ⦃plots : Plot M⦄ where
  load_single_proxy-status :
      (sock : Bytes) (e : Engine P L M) → (load_single_proxy sock e).0.status ≡ e.status
  unfolding load_single_proxy map_add
  load_single_proxy-status sock e = ground arith

  load_lines-status :
      (l : List Bytes) (count : ℕ) (e : Engine P L M) → (load_lines l count e).0.status ≡ e.status
  unfolding load_lines
  load_lines-status [] count e = refl
  load_lines-status (line ∷ rest) count e =
      load_lines-status rest _ (load_single_proxy line e).0 ∙ load_single_proxy-status line e

  load_proxy_txt-status :
      (file : FileRead) (e : Engine P L M) → (load_proxy_txt file e).0.status ≡ e.status
  unfolding load_proxy_txt load_multi_line_string
  load_proxy_txt-status (failed err) e = refl
  load_proxy_txt-status (contents bs none) e = load_lines-status (scan bs) 0 e
  load_proxy_txt-status (contents bs (some err)) e = load_lines-status (scan bs) 0 e

module _ ⦃internet : Internet⦄ {P L M : Type 0} ⦃ants : Ants P⦄ ⦃limiter : Limiter L⦄
    ⦃plots : Plot M⦄ (shuffle : List (Bytes × ℕ) → List (Bytes × ℕ)) where
  configured-Reach : (e : Engine P L M) → Reach shuffle e (configured e)
  unfolding configured disable_debug_redaction
  configured-Reach e =
      let five : Engine P L M = set_max_workers (pos 5) e in
      let loud : Engine P L M = record five {
        debug = set_debug_logger (enable_debug five.debug);
      } in
      let plain : Engine P L M = disable_debug_redaction loud in
      let s : Reach shuffle e five = moved unmoved (sets_workers (pos 5) refl) in
      let t : Reach shuffle e loud = moved s (logs loud.debug loud.stats refl) in
      let u : Reach shuffle e (record loud { opt = plain.opt }) =
        moved t (configures plain.opt refl) in
      let v : Reach shuffle e plain = moved u (logs plain.debug plain.stats refl) in
      moved v (enables refl)

  configured-status : (e : Engine P L M) → (configured e).status ≡ e.status
  unfolding configured disable_debug_redaction enable_auto_scaler set_max_workers tune_workers
  configured-status e = ground arith

  start_new :
      (e : Engine P L M)
      → e.status ≡ state_new
      → ((start_engine e).failed ≡ false) × (is_running (start_engine e).engine ≡ true)
  unfolding start_engine start_daemons
  start_new e h = rw h (refl, refl)

  -- How a start ends, from the engine that init makes: it exits if no line of the file was new, and runs
  -- otherwise.
  abbrev pub Booted : FileRead → Engine P L M → Boot P L M → Type 0
  Booted file e r =
      let (f, count) = load_proxy_txt file (configured e) in
      ((count ≡ 0) × (r ≡ exits f))
      ⊎ ((0 < count)
          × ((g : Engine P L M) × (r ≡ boots g) × Reach shuffle e g × (is_running g ≡ true)))

  started-ends :
      (e : Engine P L M) (count : ℕ)
      → e.status ≡ state_new
      → ((count ≡ 0) × (started (e, count) ≡ exits e))
        ⊎ ((0 < count) × (started (e, count) ≡ boots (start_engine e).engine))
  unfolding started
  started-ends e zero new = inl (refl, refl)
  started-ends e (suc count) new = inr (
    omega arith,
    if_false (ltb (suc count) 1) _ _ (ground arith)
        ∙ if_false (start_engine e).failed _ _ (start_new e new).0,
  )

  -- init on a new engine, with a file named on the command line and without what the goroutine of the
  -- server does meanwhile: it does not panic; it exits if no line of the file is new, as when the file
  -- cannot be read, and otherwise leaves an engine that runs and that is in a state which the new engine
  -- can reach.
  pub boot-Booted :
      (now : ℕ) (debug : Debug) (pool : P) (file : FileRead)
      → Booted file (engine_with now debug pool) (boot file (engine_with now debug pool))
  unfolding boot engine_with def_opt add64 wrap64 ◌+ℤ◌
  boot-Booted now debug pool file =
      let e : Engine P L M = engine_with now debug pool in
      let r : Engine P L M × ℕ = load_proxy_txt file (configured e) in
      let s : Reach shuffle e r.0 = moved (configured-Reach e) (reads file refl) in
      let new : r.0.status ≡ state_new =
        load_proxy_txt-status file (configured e) ∙ configured-status e in
      elim (started-ends r.0 r.1 new) [
        | inl over ↦ inl over
        | inr (some_new, on) ↦ inr (
          some_new,
          ((start_engine r.0).engine, on, moved s (conducts start refl), (start_new r.0 new).1),
        )
      ]

-- ===== src/Example.antt =====
-- example/main.go: a terminal window on an engine. The window itself is that of tview: what is modelled is
-- what the program does with the engine, and which text it gives to the window.
pub mod Window
pub mod Started
pub mod Pressed
use prox.Base.{
  is_some, ℕ, zero, suc, ◌+◌, Bool, true, false, not, List, [], ◌∷◌, ◌++◌, Option, none, some, ℤ,
  pos, ltb, add64, sub64, if◌then◌else◌,
}
use prox.Text.{Bytes, codes}
use prox.Scaler.{Ants}
use prox.Debug.{Arg, int, duration, text, enable_debug, set_debug_logger}
use prox.Engine.{Engine, Limiter, Plot}
use prox.Engine.Options.{
  is_running, get_max_workers, get_workers, WorkerCounts, get_auto_scaler_state_string,
  set_max_workers, disable_debug_redaction, enable_auto_scaler,
}
use prox.Engine.Counters.{get_uptime, get_total_validated, get_statistics}
use prox.Load.{FileRead, load_proxy_txt}
use prox.Server.{ServerOptions, start_socks5_server}
use prox.Conductor.{Conducted, start_engine, pause_engine, resume_engine}

-- The arguments of statsFmt in currentString; `round` is that of a duration to seconds.
unfoldable pub stats_args :
    {P L M : Type 0}
    → ⦃ants : Ants P⦄ → (ℤ → ℤ)
    → ℕ
    → WorkerCounts P
    → Engine P L M
    → Bytes
    → List Arg
unfolding get_workers get_uptime get_total_validated
stats_args round now workers swamp last_message =
    let (w_max, w_run, w_idle) = get_workers workers swamp in
    duration (round (get_uptime now (get_statistics swamp)))
    ∷ int (get_total_validated swamp)
    ∷ int (get_statistics swamp).dispensed
    ∷ int w_max
    ∷ int w_run
    ∷ int w_idle
    ∷ text (get_auto_scaler_state_string swamp)
    ∷ text last_message
    ∷ []

-- StartUpstreamProxy: whether it panics, which it does once the server ends with an error.
unfoldable pub start_upstream_proxy :
    {P L M : Type 0}
    → (ServerOptions → Bytes → Option Bytes)
    → Bytes
    → Engine P L M
    → Engine P L M × Bool
unfolding start_socks5_server
start_upstream_proxy serve listen swamp =
    let (swamp', err) = start_socks5_server serve listen [] [] swamp in (swamp', is_some err)

-- How init ends: with an engine that runs, with os.Exit(1), or with a panic.
pub data Boot (P L M : Type 0) : Type 0 where
  boots exits panics : Engine P L M → Boot P L M

-- What a button leaves: the engine, the errors that were printed, and whether app.Stop was called.
pub record Press (P L M : Type 0) : Type 0 where
  pub engine : Engine P L M
  pub said : List Bytes
  pub stops : Bool

module _ {P L M : Type 0} ⦃ants : Ants P⦄ where
  -- init up to LoadProxyTXT.
  unfoldable pub configured : Engine P L M → Engine P L M
  unfolding set_max_workers enable_debug set_debug_logger disable_debug_redaction enable_auto_scaler
  configured swamp =
      let five : Engine P L M = set_max_workers (pos 5) swamp in
      let loud : Engine P L M = record five {
        debug = set_debug_logger (enable_debug five.debug);
      } in
      enable_auto_scaler (disable_debug_redaction loud)

  -- The end of init: no line of the file was new, or the engine starts.
  unfoldable pub started : Engine P L M × ℕ → Boot P L M
  unfolding start_engine
  started (swamp, count) =
      if ltb count 1
      then exits swamp
      else let r = start_engine swamp in if r.failed then panics r.engine else boots r.engine

  -- init behind NewProxyEngine, with what reading the file of the first argument gave; the goroutine of
  -- the SOCKS5 server is not part of it.
  unfoldable pub boot : ⦃plots : Plot M⦄ → FileRead → Engine P L M → Boot P L M
  unfolding configured started load_proxy_txt
  boot file swamp = started (load_proxy_txt file (configured swamp))

  -- The error of a call, if there is one.
  abbrev said_by : Bytes → Conducted P L M → Press P L M
  said_by err r = record {
    engine = r.engine;
    said = if r.failed then err ∷ [] else [];
    stops = false;
  }

  abbrev stop_app : Engine P L M → Press P L M
  stop_app swamp = record { engine = swamp; said = []; stops = true }

  abbrev resized : ℤ → Engine P L M → Press P L M
  resized num swamp = record { engine = set_max_workers num swamp; said = []; stops = false }

  unfoldable pub buttons : ℤ → Engine P L M → Press P L M
  unfolding pause_engine resume_engine set_max_workers
  buttons (pos (suc zero)) swamp =
      if is_running swamp
      then said_by (codes "not running") (pause_engine swamp)
      else said_by (codes "already running") (resume_engine swamp)
  buttons (pos (suc (suc zero))) swamp = resized (add64 (get_max_workers swamp) (pos 1)) swamp
  buttons (pos (suc (suc (suc zero)))) swamp = resized (sub64 (get_max_workers swamp) (pos 1)) swamp
  buttons _ swamp = stop_app swamp

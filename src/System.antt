-- ===== src/System.antt =====
-- The engine as a whole: what the goroutines of the program do to it, as steps that follow one another
-- in any order. A validation is one step, or its parts are, with others between them; a dial and the
-- loops of dispense.go take several.
pub mod Found
pub mod Sound
pub mod Queues
pub mod Loads
pub mod Draws
pub mod Checks
pub mod Parts
pub mod Resized
pub mod Turns
pub mod Steps
pub mod Reached
pub mod Handed
pub mod Served
pub mod Histories
pub mod Pops
pub mod Dials
pub mod Dialed
pub mod Strings
pub mod Anyone
use prox.Base.{Option, ℕ, ◌+◌, ◌≤◌, ◌<◌, ◌≡◌, Bool, List, some, ℤ, pos, pos_part, two63, ◌≤ℤ◌}
use prox.Text.{Bytes}
use prox.Proxy.{Protocol, Proxy, locked, unlocked}
use prox.Scaler.{Ants}
use prox.Debug.{Debug}
use prox.Engine.{Engine, Config, Statistics, Limiter, Plot}
use prox.Engine.Lists.{Channel}
use prox.Engine.Options.{
  enable_auto_scaler, disable_auto_scaler, set_auto_scaler_max_scale, set_auto_scaler_threshold,
  set_max_workers,
}
use prox.Daemons.{recycling}
use prox.Load.{FileRead, load_filtered, load_proxy_txt, clear_socks_list}
use prox.Dispense.{get_socks_round, get_any_lists}
use prox.Validate.{
  Network, working, attempt, single_proxy_check, note_protocol, conclude, mark_bad, validate,
}
use prox.Engine.Store.{set_lock}
use prox.Conductor.{Command, conduct}
use prox.Scale.{scale}
use prox.Spawner.{spawner_starts, spawner_stops, Turn, spawner_round}
use prox.Dialer.{Outside, lock_or_requeue, try_proxy}

-- The networks that the checks of a history may meet, whatever they answer.
pub record Internet : Type 1 where
  pub shows : Network → Type 0

-- The check of the protocol on this endpoint succeeds, with some options, on one of those networks.
pub record Spoke ⦃internet : Internet⦄ (endpoint : Bytes) (protocol : Protocol) : Type 0 where
  pub net : Network
  pub shown : internet.shows net
  pub opt : Config
  pub sock : Proxy
  pub same : sock.endpoint ≡ endpoint
  pub body : Bytes
  pub answers : attempt net opt sock protocol ≡ working body

module _ ⦃internet : Internet⦄ {P L M : Type 0} ⦃ants : Ants P⦄ ⦃limiter : Limiter L⦄
    ⦃plots : Plot M⦄ (shuffle : List (Bytes × ℕ) → List (Bytes × ℕ)) where
  -- One step, with what comes from outside as its arguments.
  pub data Step (e f : Engine P L M) : Type 0 where
    -- The caller: a line behind the filter, a file or a text, the options, and the conductor.
    loads : (line : Bytes × Bool) → f ≡ (load_filtered line e).0 → Step e f
    reads : (file : FileRead) → f ≡ (load_proxy_txt file e).0 → Step e f
    clears : f ≡ clear_socks_list e → Step e f
    configures : (opt : Config) → f ≡ record e { opt = opt } → Step e f
    enables : f ≡ enable_auto_scaler e → Step e f
    disables : f ≡ disable_auto_scaler e → Step e f
    sets_threshold : (threshold : ℤ) → f ≡ set_auto_scaler_threshold threshold e → Step e f
    -- The maximum is an int64.
    sets_max : (max : ℤ) → pos_part max < two63 → f ≡ set_auto_scaler_max_scale max e → Step e f
    sets_workers : (num : ℤ) → f ≡ set_max_workers num e → Step e f
    conducts : (c : Command) → f ≡ (conduct c e).engine → Step e f
    -- The timers, the job spawner, and a job that it submitted.
    times :
        (scale_tick recycle_tick : Bool)
        → f ≡ record e { scale_tick = scale_tick; recycle_tick = recycle_tick }
        → Step e f
    boots : f ≡ spawner_starts e → Step e f
    halts : f ≡ spawner_stops e → Step e f
    spawns :
        (refusal : ℕ → Option Bytes) (now : ℕ) (turn : Turn)
        → spawner_round shuffle refusal now e ≡ some (f, turn)
        → Step e f
    validates :
        (net : Network) (cancelled : Protocol → Bool) (order : List Protocol) (now p : ℕ)
        → internet.shows net
        → p < e.next_address
        → f ≡ validate net cancelled order now (some p) e
        → Step e f
    -- The parts of a validation, between which others may act: the lock is taken, a limiter counts, a
    -- protocol is checked, found or noted, the verdict is reached, and the lock is released.
    begins : (p : ℕ) → f ≡ set_lock p locked e → Step e f
    limits : (used bad : L) → f ≡ record e { use_prox = used; bad_prox = bad } → Step e f
    probes :
        (net : Network) (p : ℕ) (protocol : Protocol)
        → f ≡ (single_proxy_check net p protocol e).0
        → Step e f
    -- Only a protocol whose check on the endpoint succeeds is noted.
    finds :
        (p : ℕ) (protocol : Protocol)
        → Spoke (e.heap p).endpoint protocol
        → f ≡ note_protocol p protocol e
        → Step e f
    concludes : (now p : ℕ) → p < e.next_address → f ≡ conclude now p e → Step e f
    rejects : (p : ℕ) → f ≡ mark_bad p e → Step e f
    releases : (p : ℕ) → f ≡ set_lock p unlocked e → Step e f
    -- A round of getSocksStr, a pass of GetAnySOCKS, and a wait that recycles.
    hands_out : (c : Channel) (now : ℕ) → f ≡ (get_socks_round shuffle c now e).0 → Step e f
    hands_any :
        (now : ℕ) (lists : List Channel) → f ≡ (get_any_lists shuffle now lists e).0 → Step e f
    recycles : f ≡ (recycling shuffle e).0 → Step e f
    -- A message or a counter, a kill that is sent or taken, and the parts of a dial.
    logs :
        (debug : Debug) (stats : Statistics)
        → f ≡ record e { debug = debug; stats = stats }
        → Step e f
    signals : (full : Bool) → f ≡ record e { con_killer = full } → Step e f
    ticks : (now : ℕ) (sleep : Bool) → scale now e ≡ some (f, sleep) → Step e f
    takes : (p : ℕ) → p < e.next_address → f ≡ (lock_or_requeue p e).0 → Step e f
    dials :
        (world : Outside) (network addr : Bytes) (count p : ℕ)
        → f ≡ (try_proxy world network addr count p e).0
        → Step e f

  pub data Reach (e : Engine P L M) : Engine P L M → Type 0 where
    unmoved : Reach e e
    moved : {f g : Engine P L M} → Reach e f → Step f g → Reach e g

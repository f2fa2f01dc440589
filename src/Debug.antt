-- ===== src/Debug.antt =====
-- debug.go: the debug switch, and the messages that reach the logger.
pub mod Redaction
pub mod Printer
use prox.Base.{
  Option, none, some, ℕ, Bool, true, false, not, ◌&&◌, List, [], ◌∷◌, ◌++◌, String, ℤ,
  if◌then◌else◌,
}
use prox.Text.{Bytes, codes, same}
use prox.Proxy.{Proxy, Protocol, proto_string, get_proto}

pub data Arg : Type 0 where
  int : ℤ → Arg
  duration : ℤ → Arg
  text : Bytes → Arg

-- A call of Logger.Printf: the format and its arguments.
pub record Line : Type 0 where
  pub format : Bytes
  pub args : List Arg

-- The package's debug status, the last announced bad proxy, and the lines that the logger was given,
-- oldest first.
pub record Debug : Type 0 where
  pub enabled : Bool
  pub last_bad_announced : Bytes
  pub log : List Line

unfoldable pub simple_string : String → Bytes
simple_string s = codes s

-- DebugLogger.Printf
unfoldable pub printf : String → List Arg → Debug → Debug
unfolding simple_string
printf format args d = record d {
  log = d.log ++ (record { format = simple_string format; args = args } ∷ []);
}

-- The built text is passed on as the format.
unfoldable pub dbg_print : Bytes → Debug → Debug
dbg_print message d =
    if not d.enabled
    then d
    else record d { log = d.log ++ (record { format = message; args = [] } ∷ []) }

unfoldable pub enable_debug : Debug → Debug
unfolding dbg_print simple_string
enable_debug d = dbg_print (simple_string "prox5 debug enabled") (record d { enabled = true })

unfoldable pub disable_debug : Debug → Debug
disable_debug d = record d { enabled = false }

-- `redact` is the option in each of these.
abbrev redacted_or : Bool → Bytes → Bytes
redacted_or redact s = if redact then simple_string "(redacted)" else s

unfoldable pub msg_unable_to_reach : Bool → Bytes → Bytes → Bytes → Debug → Debug
unfolding simple_string dbg_print
msg_unable_to_reach redact socks target err d =
    if not d.enabled
    then d
    else dbg_print
        (simple_string "unable to reach "
          ++ ((if redact then simple_string "[redacted]" else target)
              ++ (simple_string " with "
                  ++ (socks
                      ++ ((if not redact then simple_string ": " ++ err else [])
                          ++ simple_string ", cycling...")))))
        d

unfoldable pub msg_using_proxy : Bool → Bytes → Debug → Debug
unfolding simple_string dbg_print
msg_using_proxy redact socks d =
    if not d.enabled
    then d
    else dbg_print (simple_string "mysteryDialer using socks: " ++ redacted_or redact socks) d

unfoldable pub msg_failed_middleware : Bytes → Debug → Debug
unfolding simple_string dbg_print
msg_failed_middleware socks d =
    if not d.enabled
    then d
    else dbg_print
        (simple_string "failed middleware check, " ++ (socks ++ simple_string ", cycling...")) d

unfoldable pub msg_try : Bool → Bytes → Debug → Debug
unfolding simple_string dbg_print
msg_try redact socks d =
    if not d.enabled
    then d
    else dbg_print (simple_string "try dial with: " ++ redacted_or redact socks) d

unfoldable pub msg_cant_get_lock : Bool → Bytes → Bool → Debug → Debug
unfolding simple_string dbg_print
msg_cant_get_lock redact socks putback d =
    if not d.enabled
    then d
    else dbg_print
        (simple_string "can't get lock for "
          ++ (redacted_or redact socks
              ++ (if putback then simple_string ", putting back in queue" else [])))
        d

unfoldable pub msg_got_lock : Bool → Bytes → Debug → Debug
unfolding simple_string dbg_print
msg_got_lock redact socks d =
    if not d.enabled
    then d
    else dbg_print (simple_string "got lock for " ++ redacted_or redact socks) d

unfoldable pub msg_checked : Bool → Proxy → Bool → Debug → Debug
unfolding simple_string dbg_print
msg_checked redact sock success d =
    if not d.enabled
    then d
    else if not success
    then dbg_print (simple_string "failed to verify: " ++ redacted_or redact sock.endpoint) d
    else dbg_print
        (simple_string "verified "
          ++ (redacted_or redact sock.endpoint
              ++ (simple_string " as "
                  ++ (proto_string (get_proto sock) ++ simple_string " proxy"))))
        d

unfoldable pub msg_bad_prox_rate : Bool → Proxy → Debug → Debug
unfolding simple_string dbg_print
msg_bad_prox_rate redact sock d =
    if not d.enabled
    then d
    else if same d.last_bad_announced sock.endpoint
    then d
    else record (dbg_print
        (simple_string "badProx ratelimited: " ++ redacted_or redact sock.endpoint) d) {
          last_bad_announced = sock.endpoint;
        }

-- mystery_dialer.go: announceDial
unfoldable pub announce_dial : Bool → Bytes → Bytes → Debug → Debug
unfolding simple_string dbg_print
announce_dial redact network addr d =
    dbg_print
      (simple_string "prox5 dialing: "
        ++ (network
            ++ (simple_string "://"
                ++ ((if redact then simple_string "[redacted]" else addr)
                    ++ (addr ++ simple_string "...")))))
      d

-- validator_engine.go: announceValidating
unfoldable pub announce_validating : Option Proxy → Bytes → Debug → Debug
unfolding simple_string dbg_print
announce_validating none presplit d = d
announce_validating (some sock) presplit d =
    dbg_print
      (simple_string "validating "
        ++ (proto_string (get_proto sock) ++ (simple_string "://" ++ presplit)))
      d

-- DebugEnabled
abbrev pub debug_enabled : Debug → Bool
debug_enabled d = d.enabled

-- setters.go: SetLogger. The lines are those that the present logger was given.
unfoldable pub set_logger : Debug → Debug
unfolding printf
set_logger d = printf "prox5 debug logger set" [] (record d { log = [] })

unfoldable pub set_debug_logger : Debug → Debug
unfolding set_logger
set_debug_logger d = set_logger d

unfoldable pub set_and_enable_debug_logger : Debug → Debug
unfolding set_logger enable_debug
set_and_enable_debug_logger d = enable_debug (set_logger d)

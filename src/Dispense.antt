-- ===== src/Dispense.antt =====
-- dispense.go: which validated proxy is handed out. Time passes by an argument; what the other
-- goroutines do between two rounds of a loop is a function on the engine, one for each round, so that
-- a schedule is a list of them and the loop ends by a result or by the schedule's end.
pub mod Policy
pub mod Draws
pub mod Any
pub mod Strings
use prox.Base.{
  ℕ, Bool, true, false, not, ◌&&◌, List, [], ◌∷◌, ◌++◌, Option, none, some, ℤ, negsuc, ltb_ℤ, eqb_ℤ,
  if◌then◌else◌,
}
use prox.Text.{Bytes}
use prox.Proxy.{Proxy, Lock, unlocked, locked, is_unlocked, unique_key}
use prox.Debug.{simple_string, dbg_print, msg_bad_prox_rate}
use prox.Engine.{Engine, Limiter, Plot}
use prox.Engine.Counters.{since, dispense, count_stale}
use prox.Engine.Options.{get_remove_after}
use prox.Engine.Lists.{Channel, list_of, dequeue}
use prox.Engine.Store.{set_lock}
use prox.Daemons.{map_delete, recycling}

-- How a round of one of the loops ends.
pub data Round (A : Type 0) : Type 0 where
  again : Round A
  out : A → Round A

module _ {P L M : Type 0} ⦃limiter : Limiter L⦄ ⦃plots : Plot M⦄ where
  abbrev pub say : Bytes → Engine P L M → Engine P L M
  say message e = record e { debug = dbg_print message e.debug }

  -- `GetRemoveAfter() != -1 && timesBad > GetRemoveAfter()`
  unfoldable pub too_many_failures : Proxy → Engine P L M → Bool
  too_many_failures sock e =
      not (eqb_ℤ (get_remove_after e) (negsuc 0)) && ltb_ℤ (get_remove_after e) sock.times_bad

  -- `time.Since(lastValidated) > stale`
  unfoldable pub is_stale : ℕ → Proxy → Engine P L M → Bool
  is_stale now sock e = ltb_ℤ e.opt.stale (since now sock.last_validated)

  -- The deletion of a proxy that failed too often.
  unfoldable pub delete_bad : Proxy → Engine P L M → Engine P L M
  delete_bad sock e =
      let (e', deleted) =
        map_delete sock.endpoint
          (say (simple_string "deleting from map (too many failures): " ++ sock.endpoint) e) in
      if deleted then e' else say (simple_string "proxy not found") e'

  -- The tests of stillGood under the lock.
  unfoldable pub still_good_locked : ℕ → Proxy → Engine P L M → Engine P L M × Bool
  unfolding too_many_failures is_stale delete_bad
  still_good_locked now sock e =
      if too_many_failures sock e
      then (delete_bad sock e, false)
      else if limiter.peek e.bad_prox (unique_key sock)
      then (record e { debug = msg_bad_prox_rate e.opt.redact sock e.debug }, false)
      else if is_stale now sock e
      then (
        record (say (simple_string "proxy stale: " ++ sock.endpoint) e) {
          stats = count_stale e.stats;
        },
        false,
      )
      else (e, true)

  -- stillGood on a proxy that is not nil: the CAS, the tests, and the deferred unlock.
  unfoldable pub still_good : ℕ → ℕ → Engine P L M → Engine P L M × Bool
  unfolding still_good_locked set_lock
  still_good now p e =
      if is_unlocked (e.heap p).lock
      then (let (e', good) = still_good_locked now (e.heap p) (set_lock p locked e) in
          (set_lock p unlocked e', good))
      else (e, false)

  module _ (shuffle : List (Bytes × ℕ) → List (Bytes × ℕ)) where
    -- A proxy that was taken from the list, or nil.
    unfoldable pub check_drawn : ℕ → Option ℕ → Engine P L M → Engine P L M × Round Bytes
    check_drawn now none e = ((recycling shuffle e).0, again)
    check_drawn now (some p) e =
        let (e', good) = still_good now p e in
        if good
        then (record e' { stats = dispense e'.stats }, out (e'.heap p).endpoint)
        else (e', again)

    -- One round of getSocksStr. The list does not change between the test of its length and the
    -- removal of its front, as it does in the source when another caller comes between them, whose
    -- removal of nil then panics.
    unfoldable pub get_socks_round : Channel → ℕ → Engine P L M → Engine P L M × Round Bytes
    get_socks_round c now e = elim (list_of c e.valids) [
      | [] ↦ ((recycling shuffle e).0, again)
      | _ ∷ _ ↦ let (e', sock) = dequeue c e in check_drawn now sock e'
    ]

    -- getSocksStr under a schedule: before each round the others act, and the clock is read.
    unfoldable pub get_socks_str :
        Channel
        → List ((Engine P L M → Engine P L M) × ℕ)
        → Engine P L M
        → Engine P L M × Option Bytes
    get_socks_str c [] e = (e, none)
    get_socks_str c ((others, now) ∷ schedule) e =
        let (e', round) = get_socks_round c now (others e) in
        elim round [ again ↦ get_socks_str c schedule e' | out endpoint ↦ (e', some endpoint) ]

    -- The loop of GetAnySOCKS over the lists of one `Slice`, as one step: no list is emptied between the
    -- test of its length and `pop`, so that `pop` gives a proxy.
    unfoldable pub get_any_lists : ℕ → List Channel → Engine P L M → Engine P L M × Round ℕ
    get_any_lists now [] e = (e, again)
    get_any_lists now (c ∷ lists) e =
        let skip : Engine P L M × Round ℕ = get_any_lists now lists e in
        let taken : Engine P L M × Option ℕ = dequeue c e in
        elim taken.1 [
          | none ↦ skip
          | some p ↦
              let (e', good) = still_good now p taken.0 in
              let next : Engine P L M × Round ℕ = get_any_lists now lists e' in
              if good then (e', out p) else next
        ]

    -- GetAnySOCKS under a schedule, which also gives the order of the lists in each round. The inner
    -- `none` is nil, returned when the engine's context is done.
    unfoldable pub get_any_socks :
        List ((Engine P L M → Engine P L M) × List Channel × ℕ)
        → Engine P L M
        → Engine P L M × Option (Option ℕ)
    get_any_socks [] e = (e, none)
    get_any_socks ((others, lists, now) ∷ schedule) e =
        let done : Bool = (others e).ctx_done in
        let finish = λ (f : Engine P L M). record f { stats = dispense f.stats } in
        if done
        then (finish (others e), some none)
        else (let (e', round) = get_any_lists now lists (others e) in
            elim round [ again ↦ get_any_socks schedule e' | out p ↦ (finish e', some (some p)) ])

-- ===== src/Tests/Runs.antt =====
-- Runs of the engine as a whole.
use mathlib.Core.List.{Perm}
use mathlib.Core.List.Perm
use prox.Base.{
  none, ◌++◌, ltb_ℤ, ℕ, ◌≡◌, refl, Bool, true, false, List, [], ◌∷◌, some, pos, arith, add64,
  wrap64, ◌+ℤ◌, ◌-ℤ◌, sub64,
}
use prox.Text.{Bytes, codes, same}
use prox.Proxy.{proto_socks5, get, set, new_immutable_proto}
use prox.Debug.{Debug}
use prox.Engine.{def_opt, engine_with}
use prox.Engine.Lists.{Channel, socks5, socks4, list_of, dequeue, enqueue, with_list, add, pop}
use prox.Load.{load_filtered, load_single_proxy}
use prox.Daemons.{recycling, map_add, new_proxy}
use prox.Engine.Store.{set_lock, store}
use prox.Engine.Counters.{since}
use prox.Engine.Options.{remove_after_policy}
use prox.Debug.{msg_checked}
use prox.Dispense.{
  get_any_socks, get_socks_str, get_socks_round, get_any_lists, check_drawn, out, still_good,
  still_good_locked, too_many_failures, is_stale,
}
use prox.Validate.{
  Network, validate_locked, check_protocols, try_protocols, conclude, single_proxy_check, settle,
  attempt, request, bake_http, prep_http, tally, good, proto_keys, validate,
}
use prox.Scale.{scale}
use prox.Spawner.{Turn, spawner_round}
use prox.System.{Internet, Reach, unmoved, moved, loads, validates, recycles}
use prox.System.Sound.{IsSound}
use prox.System.Served.{IsWelcome, loaded_and_checked, served}
use prox.Validate.Attempts.{works}
use prox.Validate.Walks.{first_success}
use prox.System.Reached.{reached-IsSound, reached_protocol, reached_runs}
use prox.System.Anyone.{AnyOne, any_offered}
use prox.System.Strings.{Strings, handed_out}
use prox.Tests.World.{
  World, capacity_ants, capacity_ants-IsTunable, seen_limiter, table_plot, table_plot-PlotLaws,
}

abbrev pub quiet_debug : Debug
quiet_debug = record { enabled = false; last_bad_announced = []; log = [] }

abbrev pub new_world : World
new_world = engine_with 0 quiet_debug (pos 20)

abbrev pub as_is : List (Bytes × ℕ) → List (Bytes × ℕ)
as_is l = l

pub as_is-perm : (l : List (Bytes × ℕ)) → Perm (as_is l) l
as_is-perm l = Perm.refl l

-- A network where every proxy works.
abbrev pub open_network : Network
open_network = record {
  dials = λ address. true;
  url_parses = λ url. true;
  choose = λ urls. [];
  answer = λ transport target. some [];
  parses_ip = λ body. true;
}

-- The checks meet no other network.
instance abbrev pub open_internet : Internet
open_internet = record { shows = λ net. net ≡ open_network }

-- A line is loaded, and its proxy checked: it speaks SOCKS5.
abbrev loaded_world : World
loaded_world = (load_filtered (codes "a:1", true) new_world).0

abbrev pub checked_world : World
checked_world = validate open_network (λ _. false) proto_keys 9 (some 0) loaded_world

loaded-Reach : Reach as_is new_world loaded_world
loaded-Reach = moved unmoved (loads (codes "a:1", true) refl)

pub checked-Reach : Reach as_is new_world checked_world
unfolding load_filtered engine_with map_add load_single_proxy same
checked-Reach =
    moved loaded-Reach (validates open_network (λ _. false) proto_keys 9 0 refl (omega arith) refl)

checked :
    (checked_world.next_address ≡ 1)
    × ((checked_world.heap 0).protocol.fired ≡ true)
    × ((get_socks_round as_is socks5 10 checked_world).1 ≡ out (codes "a:1"))
    × ((get_any_lists as_is 10 (socks5 ∷ socks4 ∷ []) checked_world).1 ≡ out 0)
    × (seen_limiter.peek
          (loaded_and_checked open_network proto_keys 9 (codes "a:1") new_world).bad_prox
          (codes "a:1")
        ≡ false)
unfolding def_opt load_filtered engine_with validate get_socks_round get_any_lists list_of dequeue
    map_add load_single_proxy same set_lock store validate_locked check_protocols try_protocols
    conclude get set single_proxy_check settle attempt request bake_http tally enqueue with_list
    still_good still_good_locked too_many_failures is_stale good new_proxy msg_checked since add pop
    check_drawn add64 wrap64 ◌+ℤ◌ ◌-ℤ◌ sub64 new_immutable_proto remove_after_policy
checked = (refl, refl, refl, refl, refl)

reached-IsSound_example : IsSound capacity_ants-IsTunable checked_world
unfolding def_opt
reached-IsSound_example =
    reached-IsSound capacity_ants-IsTunable table_plot-PlotLaws as_is as_is-perm 0 quiet_debug
      (pos 20) refl checked-Reach

reached_protocol_example :
    ((recycling as_is checked_world).0.heap 0).protocol ≡ (checked_world.heap 0).protocol
reached_protocol_example =
    reached_protocol capacity_ants-IsTunable table_plot-PlotLaws as_is as_is-perm
      {e = checked_world} {f = (recycling as_is checked_world).0} reached-IsSound_example
      (moved unmoved (recycles refl)) 0 (omega (arith, checked.0)) checked.1

reached_runs_example :
    ((r : World × Turn) × (spawner_round as_is (λ now. none) 10 checked_world ≡ some r))
    × ((r : World × Bool) × (scale 10 checked_world ≡ some r))
unfolding def_opt
reached_runs_example =
    reached_runs capacity_ants-IsTunable table_plot-PlotLaws as_is as_is-perm 0 quiet_debug (pos 20)
      refl checked-Reach (λ now. none) 10

-- A call with one round, before which a file is read.
abbrev one_round : List ((World → World) × ℕ)
one_round = ((λ e. (load_filtered (codes "b:2", true) e).0), 10) ∷ []

handed_out_example :
    Strings capacity_ants-IsTunable table_plot-PlotLaws as_is as_is-perm socks5
      (10 ∷ [])
      new_world
      (get_socks_str as_is socks5 one_round checked_world)
unfolding def_opt
handed_out_example =
    handed_out capacity_ants-IsTunable table_plot-PlotLaws as_is as_is-perm 0 quiet_debug (pos 20)
      refl checked-Reach socks5 one_round
      ((λ e v. moved unmoved (loads (codes "b:2", true) refl)), tt)

-- A call over two lists in one round.
abbrev any_round : List ((World → World) × List Channel × ℕ)
any_round = ((λ e. e), socks5 ∷ socks4 ∷ [], 10) ∷ []

any_offered_example :
    AnyOne capacity_ants-IsTunable table_plot-PlotLaws as_is as_is-perm
      ((socks5 ∷ socks4 ∷ [], 10) ∷ [])
      new_world
      (get_any_socks as_is any_round checked_world)
unfolding def_opt
any_offered_example =
    any_offered capacity_ants-IsTunable table_plot-PlotLaws as_is as_is-perm 0 quiet_debug (pos 20)
      refl checked-Reach any_round ((λ e v. unmoved), tt)

new_world_welcomes : IsWelcome (codes "a:1") new_world
unfolding engine_with def_opt
new_world_welcomes = record { alive = refl; allowed = refl; sound = refl; tolerant = refl }

serves_socks5 :
    first_success (works open_network new_world.opt (new_proxy (codes "a:1"))) proto_keys
    ≡ some proto_socks5
unfolding first_success attempt request bake_http prep_http
serves_socks5 = refl

recent : ltb_ℤ new_world.opt.stale (since 10 9) ≡ false
unfolding engine_with def_opt since ◌-ℤ◌
recent = refl

served_example :
    ((load_single_proxy (codes "a:1") new_world).0.pending
      ≡ new_world.pending ++ (new_world.next_address ∷ []))
    × ((get_socks_round as_is socks5 10
          (loaded_and_checked open_network proto_keys 9 (codes "a:1") new_world)).1
        ≡ out (codes "a:1"))
unfolding list_of
served_example =
    served table_plot-PlotLaws as_is open_network proto_keys 9 10 (codes "a:1") new_world
      proto_socks5 socks5 (unfold engine_with in refl) new_world_welcomes serves_socks5 refl
      (unfold engine_with in refl) checked.4 recent

-- ===== src/Tests/Calls.antt =====
-- Calls that start and stop an engine.
use prox.Base.{add64, wrap64, ◌+ℤ◌, ◌+◌, true, ℤ, ◌≡◌, refl, false, List, [], ◌∷◌}
use prox.Conductor.{Command, start, pause, resume, close}
use prox.Conductor.Lifecycle.{Totals, Balanced, conduct_all, conduct_all-Balanced}
use mathlib.Core.List.Memᴰ
use prox.Text.{Bytes, codes}
use prox.Conductor.Connections.{
  Watch, kills, closed, timed_out, IsDue, run_case, first_ready, close_all_conns,
  close_all_conns_returns,
}
use prox.Dialer.{
  context_done, first_alarm, Moment, connections_killed, outer_round, ends, failed, alarmed,
}
use prox.Dialer
use prox.Dialer.Kills.{
  Conn, Event, Deaths, tries, leaves, watches, dials, happen, happens, one_if, live_count,
}
use prox.Dialer.Kills.Balance.{happen_lem}
use prox.Dialer.Killed.{mystery_dialer_killed}
use prox.Engine.Counters.{is_empty}
use prox.Dialer.{mystery_dialer}
use prox.Tests.Dials.{dial_world, refusing}
use prox.Tests.World.{World, Table, start_world, table_plot, seen_limiter, capacity_ants}

abbrev no_totals : Totals
no_totals = record { spawned = 0; pauses = 0; closed = false }

start_world-Balanced : Balanced start_world no_totals
unfolding start_world
start_world-Balanced = record { balance = refl; dead = refl }

abbrev test_commands : List Command
test_commands = start ∷ start ∷ pause ∷ resume ∷ close ∷ pause ∷ []

conduct_all-Balanced_example :
    Balanced
      (conduct_all test_commands start_world no_totals).0
      (conduct_all test_commands start_world no_totals).1
conduct_all-Balanced_example =
    conduct_all-Balanced test_commands start_world no_totals start_world-Balanced

-- A `select` whose ticker has fired, and that looks at the kills first.
abbrev due_watch : Watch ℤ (List Bytes) Table
due_watch = record { others = λ e. e; expired = true; order = kills ∷ closed ∷ timed_out ∷ [] }

due_watch-IsDue : IsDue due_watch
due_watch-IsDue = record {
  quiet = λ e. refl;
  fired = refl;
  looks = Memᴰ.tail (Memᴰ.tail (Memᴰ.head refl));
}

close_all_conns_returns_example :
    (close_all_conns (due_watch ∷ due_watch ∷ []) start_world).1 ≡ true
close_all_conns_returns_example =
    close_all_conns_returns due_watch due_watch [] start_world due_watch-IsDue due_watch-IsDue

abbrev killing_moment : Moment ℤ (List Bytes) Table
killing_moment = record {
  others = λ e. e;
  cancelled = false;
  expired = false;
  order = connections_killed ∷ Dialer.timed_out ∷ [];
  now = 1;
  draws = [];
}

mystery_dialer_killed_example :
    let f : World = (close_all_conns (due_watch ∷ due_watch ∷ []) dial_world).0 in
    let (g, outcome) =
      mystery_dialer (λ l. l) refusing (codes "tcp") (codes "b:2") (killing_moment ∷ []) f in
    (outcome ≡ failed (alarmed connections_killed)) × (g.con_killer ≡ false)
unfolding close_all_conns run_case first_ready start_world is_empty add64 wrap64 ◌+ℤ◌
mystery_dialer_killed_example =
    mystery_dialer_killed (λ l. l) refusing (codes "tcp") (codes "b:2") (due_watch ∷ due_watch ∷ [])
      killing_moment [] dial_world
      (close_all_conns_returns due_watch due_watch [] dial_world due_watch-IsDue due_watch-IsDue)
      refl refl refl
      (record { quiet = λ e. refl; on_time = record { uncancelled = refl; in_time = refl } }) tt

-- A connection that is up, and one whose context is done.
abbrev test_conns : List Conn
test_conns =
    record { live = true; cancelled = false } ∷ record { live = true; cancelled = true } ∷ []

-- CloseAllConns sends a kill, which the first connection takes, and one more, which a dial takes, and
-- leaves one behind; the second connection is closed for its context.
abbrev test_events : List (Event ℤ (List Bytes) Table)
test_events =
    tries due_watch
    ∷ watches 0 (connections_killed ∷ [])
    ∷ tries due_watch
    ∷ dials killing_moment 0
    ∷ leaves
    ∷ watches 1 (context_done ∷ connections_killed ∷ [])
    ∷ []

abbrev no_deaths : Deaths
no_deaths = record { sent = 0; conns = 0; dials = 0; others = 0 }

happen_test :
    (happen test_events (test_conns, start_world, no_deaths)).2
    ≡ record { sent = 3; conns = 1; dials = 1; others = 1 }
unfolding happen happens first_ready run_case outer_round first_alarm start_world
happen_test = refl

happen_lem_example :
    let (conns', e', t) = happen test_events (test_conns, start_world, no_deaths) in
    (t.sent + one_if start_world.con_killer ≡ t.conns + t.dials + one_if e'.con_killer)
    × (live_count conns' + t.conns + t.others ≡ live_count test_conns)
happen_lem_example = happen_lem test_events test_conns start_world

-- ===== src/Tests/Dials.antt =====
-- A dial whose first proxy refuses the connection.
use prox.Base.{
  add64, wrap64, ◌+ℤ◌, ◌-ℤ◌, ◌≡◌, ◌+◌, ◌≤◌, arith, ℤ, refl, true, false, List, [], ◌∷◌, some, pos,
}
use prox.Text.{Bytes, codes}
use prox.Daemons.{new_proxy}
use prox.Engine.Lists.{slice, dequeue}
use prox.Engine.Counters.{is_empty, since}
use prox.Engine.Options.{remove_after_policy}
use prox.Scale.{scale}
use prox.Dispense.{still_good, get_any_lists, get_any_socks}
use prox.Dialer.{
  Outside, Moment, outer, dial_from, outer_round, inner_round, connections_killed, engine_closed,
  context_done, timed_out,
}
use prox.Dialer.Heap.{SameHeap, IsQuiet}
use prox.Dialer.Locks.{dial_from-SameHeap}
use prox.Dialer.Options.{IsSteady}
use prox.Dialer.Bailout.{failed_dials, failed_dials-bounded}
use prox.Tests.World.{World, Table, start_world, capacity_ants, seen_limiter, table_plot}

abbrev pub refusing : Outside
refusing = record {
  middleware = λ p. (some p, true);
  socks_dial = λ socks network addr. some (codes "refused");
}

abbrev pub idle_moment : Moment ℤ (List Bytes) Table
idle_moment = record {
  others = λ e. e;
  cancelled = false;
  expired = false;
  order = context_done ∷ engine_closed ∷ connections_killed ∷ timed_out ∷ [];
  now = 1;
  draws = ((λ e. e), slice, 1) ∷ [];
}

idle_moment-IsQuiet : IsQuiet idle_moment
idle_moment-IsQuiet = record { outside = λ e a. refl; draws = ((λ e a. refl), tt) }

-- An engine with a proxy for SOCKS5.
abbrev pub dial_world : World
dial_world = record start_world {
  valids = record { socks5 = 0 ∷ []; socks4 = []; socks4a = []; http = [] };
  heap = λ a. new_proxy (codes "a:1");
  stats = record start_world.stats { checked = pos 1; valid5 = pos 1 };
}

dial_from-SameHeap_example :
    SameHeap dial_world
      (dial_from
        (λ l. l)
        refusing
        (codes "tcp")
        (codes "b:2")
        (idle_moment ∷ idle_moment ∷ [])
        (outer 0)
        dial_world).0
dial_from-SameHeap_example =
    dial_from-SameHeap (λ l. l) refusing (codes "tcp") (codes "b:2") (λ p. refl)
      (idle_moment ∷ idle_moment ∷ []) (outer 0) dial_world
      (idle_moment-IsQuiet, (idle_moment-IsQuiet, tt))

idle_moment-IsSteady : IsSteady idle_moment
idle_moment-IsSteady = record { outside = λ e. refl; draws = ((λ e. refl), tt) }

-- With a bailout of zero, one dial fails all the same.
abbrev strict_world : World
strict_world = record dial_world { opt = record dial_world.opt { dialer_bailout = pos 0 } }

abbrev three_moments : List (Moment ℤ (List Bytes) Table)
three_moments = idle_moment ∷ idle_moment ∷ idle_moment ∷ []

one_failed_dial :
    failed_dials (λ l. l) refusing (codes "tcp") (codes "b:2") three_moments (outer 0) strict_world
    ≡ 1
unfolding failed_dials outer_round inner_round start_world scale is_empty add64 wrap64 ◌+ℤ◌
    get_any_socks get_any_lists dequeue still_good new_proxy remove_after_policy since ◌-ℤ◌
one_failed_dial = refl

failed_dials-bounded_example :
    0
      + failed_dials
          (λ l. l)
          refusing
          (codes "tcp")
          (codes "b:2")
          three_moments
          (outer 0)
          strict_world
    ≤ 0 + 1
failed_dials-bounded_example =
    failed_dials-bounded (λ l. l) refusing (codes "tcp") (codes "b:2") 0 three_moments (outer 0)
      strict_world refl (idle_moment-IsSteady, (idle_moment-IsSteady, (idle_moment-IsSteady, tt)))
      (omega arith)

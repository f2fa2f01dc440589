-- ===== src/Tests/Connects.antt =====
-- Dials that get through or give up, and the buffers of the server.
use prox.Base.{some, ℤ, ◌≡◌, ◌*◌, refl, true, false, List, [], ◌∷◌, none, pos, length, All}
use prox.Text.{Bytes, codes}
use prox.Engine.Lists.{socks5}
use prox.Server.Buffers.{used, unused, takes, bufs, get, Uses-bufs}
use prox.Dialer.{Moment, Outside, context_done}
use prox.Dialer.Tries.{IsCalm}
use prox.Debug.{announce_dial}
use prox.Dialer.Exhausted.{Retry}
use prox.Tests.World.{World, Table, capacity_ants, seen_limiter, table_plot}
use prox.Tests.Dials.{dial_world}
use prox.Tests.Runs.{open_internet}

abbrev reaching : Outside
reaching = record { middleware = λ p. (some p, true); socks_dial = λ socks network addr. none }

-- Nobody else acts, and GetAnySOCKS starts with the list of SOCKS5.
abbrev drawing : Moment ℤ (List Bytes) Table
drawing = record {
  others = λ e. e;
  cancelled = false;
  expired = false;
  order = context_done ∷ [];
  now = 10;
  draws = ((λ e. e), socks5 ∷ [], 10) ∷ [];
}

drawing-IsCalm : IsCalm drawing
drawing-IsCalm = record {
  quiet = λ e. refl;
  on_time = record { uncancelled = refl; in_time = refl };
}

-- A dial may fail once.
abbrev brief_world : World
brief_world = record dial_world { opt = record dial_world.opt { dialer_bailout = pos 0 } }

abbrev told_world : World
told_world = record brief_world {
  debug = announce_dial brief_world.opt.redact (codes "tcp") (codes "b:2") brief_world.debug;
}

abbrev retry : Retry ℤ (List Bytes) Table
retry = record {
  first = drawing;
  second = drawing;
  now = 10;
  p = 0;
  c = socks5;
  rest = [];
  on_time = record { uncancelled = refl; in_time = refl };
  calm = drawing-IsCalm;
  draws = record { others = λ e. e; lists = []; draws = []; passes = refl; quiet = λ e. refl };
}

-- The server takes one buffer, and then another.
Uses-bufs_example :
    All (λ cc. length cc ≡ 32 * 1024) ((get 0 (get 0 bufs).0).1 ∷ (get 0 bufs).1 ∷ [])
Uses-bufs_example = Uses-bufs 0 (used unused (takes 0))

-- ===== src/Tests/Handout.antt =====
-- Handing out proxies.
use prox.Base.{inr, ◌-ℤ◌, ℕ, zero, suc, ◌≡◌, ◌↔◌, refl, true, false, [], ◌∷◌, some, pos, arith}
use mathlib.Core.List.{Memᴰ}
use prox.Text.{codes}
use prox.Proxy.{Proxy, unlocked}
use prox.Daemons.{new_proxy}
use prox.Engine.Lists.{list_of, socks5, slice, dequeue, pop}
use prox.Dispense.{get_any_lists, out, too_many_failures, is_stale, still_good, get_socks_str}
use prox.Dispense.Policy.{IsGood, still_good_iff}
use prox.Dispense.Draws.{quiet, get_socks_str_returns}
use prox.Engine.Options.{remove_after_policy}
use prox.Engine.Counters.{since, saturate}
use prox.Tests.World.{World, start_world, table_plot, seen_limiter}

-- A proxy that failed too often, and one that did not.
abbrev worn_proxy : Proxy
worn_proxy = record (new_proxy (codes "b:2")) { times_bad = pos 30 }

abbrev fine_proxy : Proxy
fine_proxy = new_proxy (codes "a:1")

abbrev test_heap : ℕ → Proxy
test_heap zero = worn_proxy
test_heap (suc _) = fine_proxy

-- An engine whose list for SOCKS5 has the worn proxy in front of the other.
abbrev stocked_world : World
stocked_world = record start_world {
  valids = record { socks5 = 0 ∷ 1 ∷ []; socks4 = []; socks4a = []; http = [] };
  heap = test_heap;
  next_address = 2;
  plot = (codes "b:2", 0) ∷ (codes "a:1", 1) ∷ [];
}

fine_proxy-IsGood : IsGood 1 1 stocked_world
unfolding start_world new_proxy since saturate ◌-ℤ◌
fine_proxy-IsGood = record {
  free = refl;
  reliable = inr (inr (omega arith));
  calm = refl;
  recent = omega arith;
}

still_good_iff_example : ((still_good 1 1 stocked_world).1 ≡ true) ↔ IsGood 1 1 stocked_world
still_good_iff_example = still_good_iff 1 1 stocked_world

fine_proxy_lasts : too_many_failures fine_proxy stocked_world ≡ false
unfolding start_world new_proxy too_many_failures remove_after_policy
fine_proxy_lasts = refl

fine_proxy_is_unlocked : (stocked_world.heap 1).lock ≡ unlocked
unfolding new_proxy
fine_proxy_is_unlocked = refl

fine_proxy_is_calm :
    seen_limiter.peek stocked_world.bad_prox (stocked_world.heap 1).endpoint ≡ false
unfolding start_world
fine_proxy_is_calm = refl

stocked_list : list_of socks5 stocked_world.valids ≡ 0 ∷ 1 ∷ []
unfolding list_of
stocked_list = refl

get_socks_str_returns_example :
    (q : ℕ) × Memᴰ q (0 ∷ 1 ∷ [])
    × (r : World) × (get_socks_str (λ l. l) socks5 (quiet (λ l. l) (1 ∷ 1 ∷ [])) stocked_world
        ≡ (r, some (stocked_world.heap q).endpoint))
get_socks_str_returns_example =
    get_socks_str_returns (λ l. l) socks5 (0 ∷ []) 1 [] (1 ∷ 1 ∷ []) stocked_world stocked_list
      (omega arith) (fine_proxy-IsGood, (fine_proxy-IsGood, tt))

-- The good proxy alone, on the list for SOCKS4.
abbrev served_world : World
served_world = record stocked_world {
  valids = record { socks5 = []; socks4 = 1 ∷ []; socks4a = []; http = [] };
}

served : (get_any_lists (λ l. l) 1 slice served_world).1 ≡ out 1
unfolding get_any_lists dequeue pop still_good start_world new_proxy too_many_failures is_stale
    remove_after_policy since saturate ◌-ℤ◌ list_of
served = refl

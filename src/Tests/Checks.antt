-- ===== src/Tests/Checks.antt =====
-- Validation, and what the messages tell.
use prox.Base.{
  ℕ, List, ◌∷◌, All, map, pos, ◌≡◌, refl, true, false, not, [], none, some, if◌then◌else◌,
}
use prox.Text.{Bytes, codes, has_prefix, contains, is_empty}
use prox.Proxy.{Proxy, Protocol, proto_http, proto_socks4, get, get_proto}
use prox.Validate.Again.{Returns, Recheck, validate_again_lem}
use prox.Debug.{Debug}
use prox.Debug.Redaction.{announce_dial_injective}
use prox.Daemons.{new_proxy}
use prox.Validate.{Network, default_transport, dial_socks, proto_keys, try_protocols, validate}
use prox.Validate.Headers.{requests_pooled}
use prox.Validate.Headers.Undressed.{IsPlain, IsBare, plain_answer, requests_pooled_lem}
use prox.Validate.Attempts.{works}
use prox.Validate.Walks.{first_success, Walked}
use prox.Validate.Loop.{try_protocols-Walked}
use prox.Validate.Verdict.{Verdict}
use prox.Validate.Lock.{validate-lock}
use prox.Validate.Fresh.{Passes, chosen, validate_lem}
use prox.Tests.World.{World, start_world, seen_limiter}

-- A network where each dial succeeds and only SOCKS4 clients get an address.
abbrev test_network : Network
test_network = record {
  dials = λ address. true;
  url_parses = λ url. not (is_empty url);
  choose = λ urls. codes "http://check";
  answer = λ transport target. elim transport [
    | default_transport ↦ some (codes "teapot")
    | dial_socks url ↦ if has_prefix url (codes "socks4://") then some (codes "1.1.1.1") else none
  ];
  parses_ip = λ body. contains body (codes ".");
}

-- An engine with a proxy that was never checked.
abbrev fresh_world : World
fresh_world = record start_world { heap = λ _. new_proxy (codes "a:1") }

fresh_world-Passes : Passes 0 fresh_world
unfolding start_world new_proxy
fresh_world-Passes = record {
  parent = refl;
  unheld = refl;
  alive = refl;
  allowed = refl;
  sound = refl;
  unset = refl;
  fresh = refl;
}

validate_lem_example :
    Verdict 9 0
      (chosen (first_success (works test_network fresh_world.opt (fresh_world.heap 0)) proto_keys))
      fresh_world
      (validate test_network (λ _. false) proto_keys 9 (some 0) fresh_world)
validate_lem_example = validate_lem test_network proto_keys 9 0 fresh_world fresh_world-Passes

-- The proxy was found to speak SOCKS4 before.
abbrev known_world : World
known_world = record start_world {
  heap = λ _. record (new_proxy (codes "a:1")) {
    protocol = record { value = proto_socks4; fired = true };
    times_validated = pos 1;
  };
}

known_world-Returns : Returns 0 known_world
unfolding start_world new_proxy get
known_world-Returns = record {
  parent = refl;
  unheld = refl;
  alive = refl;
  allowed = refl;
  sound = refl;
  known = refl;
  before = refl;
}

validate_again_lem_example :
    Recheck 9 0
      (works test_network known_world.opt (known_world.heap 0) (get_proto (known_world.heap 0)))
      known_world
      (validate test_network (λ _. false) proto_keys 9 (some 0) known_world)
validate_again_lem_example =
    validate_again_lem test_network proto_keys 9 0 known_world known_world-Returns

try_protocols-Walked_example :
    Walked test_network 0 proto_keys fresh_world
      (try_protocols test_network (λ _. false) 0 proto_keys fresh_world)
try_protocols-Walked_example = try_protocols-Walked test_network 0 proto_keys fresh_world

abbrev loud_debug : Debug
loud_debug = record { enabled = true; last_bad_announced = []; log = [] }

announce_dial_injective_example : codes "a:1" ≡ codes "a:1"
announce_dial_injective_example =
    announce_dial_injective (codes "tcp") (codes "a:1") (codes "a:1") loud_debug refl refl

-- Two checks, the second with what the first put into the pool.
abbrev two_checks : List (Proxy × Protocol × ℕ × Bytes)
two_checks =
    (new_proxy (codes "a:1"), proto_socks4, 0, codes "agent")
    ∷ (new_proxy (codes "b:2"), proto_http, 0, codes "other")
    ∷ []

requests_pooled_lem_example :
    let (answers, requests, last) = requests_pooled test_network start_world.opt two_checks [] in
    (answers ≡ map (plain_answer test_network start_world.opt) two_checks)
    × All (IsPlain test_network start_world.opt) requests
    × All IsBare last
requests_pooled_lem_example = requests_pooled_lem test_network start_world.opt two_checks [] tt

validate-lock_example :
    ((validate test_network (λ _. false) proto_keys 9 (some 0) fresh_world).heap 0).lock
    ≡ (fresh_world.heap 0).lock
validate-lock_example = validate-lock test_network (λ _. false) proto_keys 9 0 fresh_world

-- ===== src/Load/Book.antt =====
-- What the loader promises, without addresses: a set of known endpoints and a queue of endpoints.
use prox.Base.{ℕ, Bool, true, false, ◌||◌, List, [], ◌∷◌, ◌++◌, map, is_some, if◌then◌else◌}
use prox.Text.{Bytes, same}
use prox.Proxy.{Proxy}
use prox.Engine.{Engine, Plot}
use prox.Daemons.{map_delete}
use prox.Load.{load_filtered, load_multi_line_string, clear_socks_list, scan}

-- What a user of the loader sees.
pub record Book : Type 0 where
  pub known : Bytes → Bool
  pub queue : List Bytes

-- A call: a line behind the filter, a text of lines, the deletion of an endpoint, or of all of them.
pub data Call : Type 0 where
  load_line : Bytes × Bool → Call
  load_text : Bytes → Call
  delete : Bytes → Call
  clear : Call

-- One more endpoint is known, and is queued.
unfoldable pub enter : Bytes → Book → Book
enter sock b = record { known = λ k. same sock k || b.known k; queue = b.queue ++ (sock ∷ []) }

unfoldable pub enter_all : List Bytes → Book → Book
unfolding enter
enter_all [] b = b
enter_all (line ∷ rest) b = enter_all rest (enter line b)

-- What each call means.
unfoldable pub meaning : Call → Book → Book
unfolding enter enter_all
meaning (load_line (sock, true)) b = enter sock b
meaning (load_line (sock, false)) b = b
meaning (load_text socks) b = enter_all (scan socks) b
meaning (delete sock) b = record b { known = λ k. if same sock k then false else b.known k }
meaning clear b = record b { known = λ k. false }

unfoldable pub meaning_all : List Call → Book → Book
unfolding meaning
meaning_all [] b = b
meaning_all (c ∷ calls) b = meaning_all calls (meaning c b)

abbrev pub endpoints : (ℕ → Proxy) → List ℕ → List Bytes
endpoints heap = map (λ p. (heap p).endpoint)

module _ {P L M : Type 0} ⦃plots : Plot M⦄ where
  -- The book of an engine.
  unfoldable pub book : Engine P L M → Book
  book e = record { known = λ k. is_some (plots.get e.plot k); queue = endpoints e.heap e.pending }

  -- What the code does on a call.
  unfoldable pub perform : Call → Engine P L M → Engine P L M
  perform (load_line line) e = (load_filtered line e).0
  perform (load_text socks) e = (load_multi_line_string socks e).0
  perform (delete sock) e = (map_delete sock e).0
  perform clear e = clear_socks_list e

  unfoldable pub perform_all : List Call → Engine P L M → Engine P L M
  perform_all [] e = e
  perform_all (c ∷ calls) e = perform_all calls (perform c e)

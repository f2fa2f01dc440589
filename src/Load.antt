-- ===== src/Load.antt =====
-- list_management.go: loading proxies into the map and onto Pending.
pub mod Outcome
pub mod Scanning
pub mod Book
pub mod Refines
pub mod Forgetful
use prox.Base.{
  ℕ, zero, suc, ◌+◌, Bool, true, false, List, [], ◌∷◌, ◌++◌, Option, none, some, ◌==◌,
  if◌then◌else◌,
}
use prox.Text.{Bytes}
use prox.Parse.{Addresses, Run, returns, ◌>>=◌, filter}
use prox.Debug.{simple_string, dbg_print}
use prox.Engine.{Engine, Plot}
use prox.Engine.Lists.{add}
use prox.Daemons.{map_add, map_clear}

-- bufio.MaxScanTokenSize
abbrev pub max_scan_token_size : ℕ
max_scan_token_size = 65536

-- The line without a carriage return at its end.
unfoldable pub drop_cr : Bytes → Bytes
drop_cr [] = []
drop_cr (c ∷ []) = if c == b'\r' then [] else c ∷ []
drop_cr (c ∷ d ∷ s) = c ∷ drop_cr (d ∷ s)

-- The tokens of a bufio.Scanner: `line` is what stands before the rest, and `size` its length. A line
-- that fills the buffer ends the scan.
unfoldable pub scan_from : Bytes → Bytes → ℕ → List Bytes
unfolding drop_cr
scan_from [] [] size = []
scan_from [] (c ∷ line) size = if size == max_scan_token_size then [] else drop_cr (c ∷ line) ∷ []
scan_from (c ∷ s) line size = elim (size == max_scan_token_size) [
  | true ↦ []
  | false ↦ elim (c == b'\n') [
    | true ↦ drop_cr line ∷ scan_from s [] 0
    | false ↦ scan_from s (line ++ (c ∷ [])) (size + 1)
  ]
]

unfoldable pub scan : Bytes → List Bytes
unfolding scan_from
scan s = scan_from s [] 0

-- What reading the seed file gave: an error, or its bytes and the error of closing it.
pub data FileRead : Type 0 where
  failed : Bytes → FileRead
  contents : Bytes → Option Bytes → FileRead

module _ {P L M : Type 0} ⦃plots : Plot M⦄ where
  -- loadSingleProxy: `false` is the error "proxy already exists".
  unfoldable pub load_single_proxy : Bytes → Engine P L M → Engine P L M × Bool
  unfolding add
  load_single_proxy sock e =
      let (e', found) = map_add sock e in
      elim found [ none ↦ (e', false) | some p ↦ (record e' { pending = add e'.pending p }, true) ]

  abbrev pub say : Bytes → Engine P L M → Engine P L M
  say message e = record e { debug = dbg_print message e.debug }

  -- LoadSingleProxy behind the filter.
  unfoldable pub load_filtered : Bytes × Bool → Engine P L M → Engine P L M × Bool
  unfolding load_single_proxy
  load_filtered (sock, false) e = (say (simple_string "invalid proxy format") e, false)
  load_filtered (sock, true) e =
      let (e', loaded) = load_single_proxy sock e in
      if loaded then (e', true) else (say (simple_string "proxy already exists") e', false)

  -- LoadSingleProxy
  unfoldable pub load_proxy : Addresses → Bytes → Engine P L M → Run (Engine P L M × Bool)
  unfolding load_filtered
  load_proxy net sock e = do filtered ← filter net sock; returns (load_filtered filtered e)

  -- The loop of LoadMultiLineString over the scanner's tokens.
  unfoldable pub load_lines : List Bytes → ℕ → Engine P L M → Engine P L M × ℕ
  unfolding load_single_proxy
  load_lines [] count e = (e, count)
  load_lines (line ∷ rest) count e =
      let (e', loaded) = load_single_proxy line e in
      load_lines rest (if loaded then count + 1 else count) e'

  unfoldable pub load_multi_line_string : Bytes → Engine P L M → Engine P L M × ℕ
  unfolding scan load_lines
  load_multi_line_string socks e = load_lines (scan socks) 0 e

  unfoldable pub load_proxy_txt : FileRead → Engine P L M → Engine P L M × ℕ
  unfolding load_multi_line_string
  load_proxy_txt (failed err) e = (say err e, 0)
  load_proxy_txt (contents bs none) e = load_multi_line_string bs e
  load_proxy_txt (contents bs (some err)) e =
      let (e', count) = load_multi_line_string bs e in (say err e', count)

  unfoldable pub clear_socks_list : Engine P L M → Engine P L M
  unfolding map_clear
  clear_socks_list e = map_clear e

-- ===== src/Load/Outcome.antt =====
-- What loading does to the map and to Pending.
use prox.Base.{
  if◌then◌else◌, ℕ, ◌+◌, ◌<◌, ◌≡◌, refl, ap, ◌∙◌, true, List, [], ◌∷◌, ◌++◌, some, arith, length,
  length-append, All-append, append_assoc,
}
use prox.Text.{Bytes, same, same_refl}
use prox.Engine.{Engine, Plot}
use prox.Engine.Lists.{add}
use prox.Daemons.{map_add}
use prox.Daemons.MapLaws.{PlotLaws, IsKnown, or_value, map_add-some, map_add-found, map_add-IsKnown}
use prox.Load.{load_single_proxy, load_lines, load_multi_line_string, scan}

module _ {P L M : Type 0} ⦃plots : Plot M⦄ (laws : PlotLaws plots) where
  -- The address that a line is loaded under: that of the map's entry, or the first free one.
  abbrev pub address_of : Bytes → Engine P L M → ℕ
  address_of sock e = or_value (plots.get e.plot sock) e.next_address

  pub load_single_proxy_eq :
      (sock : Bytes) (e : Engine P L M)
      → load_single_proxy sock e ≡ (
        record (map_add sock e).0 { pending = add (map_add sock e).0.pending (address_of sock e) },
        true,
      )
  unfolding load_single_proxy map_add
  load_single_proxy_eq sock e = rw (map_add-some laws sock e)

  -- Loading a line never fails: whether the map knew it or not, the map has it afterwards, under the
  -- same address as before if it was there, Pending has that address once more at its end, and no other
  -- entry of the map has changed.
  pub load_single_proxy_lem :
      (sock k : Bytes) (e : Engine P L M)
      → let (e', loaded) = load_single_proxy sock e in
        (loaded ≡ true)
        × (e'.pending ≡ e.pending ++ (address_of sock e ∷ []))
        × (plots.get e'.plot k
            ≡ (if same sock k then some (address_of sock e) else plots.get e.plot k))
  unfolding map_add add
  load_single_proxy_lem sock k e =
      rw (load_single_proxy_eq sock e)
        (refl, refl, laws.get-set_if_absent e.plot sock k e.next_address)

  load_single_proxy_found :
      (sock : Bytes) (e : Engine P L M)
      → plots.get (load_single_proxy sock e).0.plot sock ≡ some (address_of sock e)
  load_single_proxy_found sock e =
      ground (arith, (load_single_proxy_lem sock sock e).2, same_refl sock)

  pub load_single_proxy-IsKnown :
      (sock : Bytes) (e : Engine P L M) → IsKnown e → IsKnown (load_single_proxy sock e).0
  unfolding add
  load_single_proxy-IsKnown sock e v = rw (load_single_proxy_eq sock e) (
      let w = map_add-IsKnown laws sock e v in
      record {
        exists = w.exists;
        keyed = w.keyed;
        queued =
            All-append (λ p. p < (map_add sock e).0.next_address) (map_add sock e).0.pending
              (address_of sock e ∷ []) w.queued
              (w.exists sock (address_of sock e) (map_add-found laws sock e), tt);
      })

  load_lines-IsKnown :
      (lines : List Bytes) (n : ℕ) (e : Engine P L M) → IsKnown e → IsKnown (load_lines lines n e).0
  unfolding load_lines
  load_lines-IsKnown [] n e v = v
  load_lines-IsKnown (line ∷ rest) n e v =
      load_lines-IsKnown rest _ (load_single_proxy line e).0 (load_single_proxy-IsKnown line e v)

  -- Loading a text keeps the map keyed by the endpoints of proxies that exist, and Pending made of
  -- proxies that exist.
  pub load_multi_line_string-IsKnown :
      (socks : Bytes) (e : Engine P L M) → IsKnown e → IsKnown (load_multi_line_string socks e).0
  unfolding load_multi_line_string
  load_multi_line_string-IsKnown socks e v = load_lines-IsKnown (scan socks) 0 e v

  pub load_lines_step :
      (line : Bytes) (rest : List Bytes) (n : ℕ) (e : Engine P L M)
      → load_lines (line ∷ rest) n e ≡ load_lines rest (n + 1) (load_single_proxy line e).0
  unfolding load_lines
  load_lines_step line rest n e = rw (load_single_proxy_lem line line e).0 refl

  load_lines_count :
      (lines : List Bytes) (n : ℕ) (e : Engine P L M)
      → ((load_lines lines n e).1 ≡ n + length lines)
        × (length (load_lines lines n e).0.pending ≡ length e.pending + length lines)
  unfolding load_lines
  load_lines_count [] n e = (omega arith, omega arith)
  load_lines_count (line ∷ rest) n e =
      let (loaded, queue, entries) = load_single_proxy_lem line line e in
      let (a, b) = load_lines_count rest (n + 1) (load_single_proxy line e).0 in
      rw (load_lines_step line rest n e) (
        omega (arith, a),
        omega (arith, b, ap length queue, length-append e.pending (address_of line e ∷ [])),
      )

  -- Each token of the scanner is counted as loaded, and puts one more proxy on Pending, whether it is
  -- empty, malformed or loaded before.
  pub load_multi_line_string_count :
      (socks : Bytes) (e : Engine P L M)
      → let (e', count) = load_multi_line_string socks e in
        (count ≡ length (scan socks)) × (length e'.pending ≡ length e.pending + length (scan socks))
  unfolding load_multi_line_string
  load_multi_line_string_count socks e =
      let (a, b) = load_lines_count (scan socks) 0 e in (omega (arith, a), b)

  -- Loading a line twice succeeds twice: Pending ends with the same proxy twice.
  pub load_twice :
      (sock : Bytes) (e : Engine P L M)
      → let (e', first) = load_single_proxy sock e in
        let (e'', second) = load_single_proxy sock e' in
        (first ≡ true)
        × (second ≡ true)
        × (e''.pending ≡ e.pending ++ (address_of sock e ∷ address_of sock e ∷ []))
        × (plots.get e''.plot sock ≡ some (address_of sock e))
  load_twice sock e =
      let (loaded, queue, entries) = load_single_proxy_lem sock sock e in
      let e' = (load_single_proxy sock e).0 in
      let (loaded', queue', entries') = load_single_proxy_lem sock sock e' in
      let found : plots.get e'.plot sock ≡ some (address_of sock e) =
        load_single_proxy_found sock e in
      let same_address : address_of sock e' ≡ address_of sock e = rw found in
      (
        loaded,
        loaded',
        (queue' ∙ rw (same_address, queue) (append_assoc e.pending (address_of sock e ∷ []) _)),
        load_single_proxy_found sock e' ∙ ap some same_address,
      )

-- ===== src/Parse/Panics.antt =====
-- The lines on which parse.go indexes out of range.
use prox.Base.{
  ◌≡◌, refl, sym, ◌∙◌, if◌then◌else◌, true, false, List, [], ◌∷◌, ◌++◌, arith, ap, append_assoc,
  All-append, ◌≢◌, ◌⊎◌, inl, inr, not, Bool-cases,
}
use prox.Text.{Bytes, contains, split}
use prox.Text.SplitLaws.{Lacks, split_two, split-cons, split_last, split_next, contains-append}
use prox.Parse.Fields.{IsPlain, colons_two, colons_next, Lacks-credential, filter-colons}
use prox.Parse.{
  Addresses, rejected, returns, panics, at, filter_pieces, filter_two, filter_three, filter_auth,
  filter_four, filter, filterv6, filterv6_ports, filterv6_pieces,
}

-- The second piece of the line, split at every `@`, has no colon.
abbrev pub LacksPort : Bytes → Type 0
LacksPort input =
    (serv : Bytes) × (at (split input (b'@' ∷ [])) 1 ≡ returns serv)
    × (contains serv (b':' ∷ []) ≡ false)

-- The second piece of the line, split at every `]:`, has exactly two fields.
abbrev pub LacksPassword : Bytes → Type 0
LacksPassword input =
    (tail port username : Bytes) × (at (split input (b']' ∷ b':' ∷ [])) 1 ≡ returns tail)
    × (split tail (b':' ∷ []) ≡ port ∷ username ∷ [])

module _ (net : Addresses) where
  filterv6_ports_panics :
      (host : Bytes) (ports : List Bytes)
      → filterv6_ports net host ports ≡ panics
      → (ports ≡ []) ⊎ ((port username : Bytes) × (ports ≡ port ∷ username ∷ []))
  unfolding filterv6_ports
  filterv6_ports_panics host [] h = inl refl
  filterv6_ports_panics host (p ∷ []) h = ground arith
  filterv6_ports_panics host (p ∷ u ∷ []) h = inr (p, u, refl)
  filterv6_ports_panics host (p ∷ u ∷ w ∷ ps) h = ground arith

  filterv6_pieces_panics :
      (l : List Bytes)
      → filterv6_pieces net l ≡ panics
      → (tail port username : Bytes) × (at l 1 ≡ returns tail)
        × (split tail (b':' ∷ []) ≡ port ∷ username ∷ [])
  filterv6_pieces_panics [] h = unfold filterv6_pieces in ground arith
  filterv6_pieces_panics (p ∷ []) h = unfold filterv6_pieces in ground arith
  filterv6_pieces_panics (p ∷ tail ∷ ps) h =
      elim (filterv6_ports_panics p (split tail (b':' ∷ []))
        (unfold filterv6_pieces in ground arith)) [
          | inl empty ↦ let (q, qs, c) = split-cons tail (b':' ∷ []) in cc (c, empty)
          | inr (port, username, c) ↦ (tail, port, username, refl, c)
        ]

  filterv6_panics : (input : Bytes) → filterv6 net input ≡ panics → LacksPassword input
  unfolding filterv6
  filterv6_panics input h = filterv6_pieces_panics (split input (b']' ∷ b':' ∷ [])) h

  at_two :
      (s : Bytes)
      → contains s (b':' ∷ []) ≡ true
      → (a b : Bytes) × (at (split s (b':' ∷ [])) 0 ≡ returns a)
        × (at (split s (b':' ∷ [])) 1 ≡ returns b)
  at_two s h = let (a, b, ps, e) = split_two b':' [] s h in (a, b, rw e refl, rw e refl)

  -- With two fields on each side, only the way on to filterv6 can panic.
  filter_auth_panics :
      (input auth serv : Bytes)
      → contains auth (b':' ∷ []) ≡ true
      → contains serv (b':' ∷ []) ≡ true
      → filter_auth net input auth serv ≡ panics
      → filterv6 net input ≡ panics
  unfolding filter_auth
  filter_auth_panics input auth serv ha hs h = ground (arith, at_two auth ha, at_two serv hs)

  filter_three-split :
      (input auth serv : Bytes) (rest : List Bytes)
      → contains input (b'@' ∷ []) ≡ true
      → split input (b'@' ∷ []) ≡ auth ∷ serv ∷ rest
      → filter_three net input
        ≡ (if not (contains auth (b':' ∷ [])) then rejected else filter_auth net input auth serv)
  unfolding filter_three
  filter_three-split input auth serv rest marked e = rw (marked, e)

  filter_three_served :
      (input auth serv : Bytes)
      → contains serv (b':' ∷ []) ≡ true
      → (if not (contains auth (b':' ∷ [])) then rejected else filter_auth net input auth serv)
        ≡ panics
      → filterv6 net input ≡ panics
  filter_three_served input auth serv served h = elim (Bool-cases (contains auth (b':' ∷ []))) [
    | inl c ↦ filter_auth_panics input auth serv c served (ground arith)
    | inr c ↦ absurd (ground arith)
  ]

  filter_three_panics :
      (input : Bytes) → filter_three net input ≡ panics → LacksPort input ⊎ LacksPassword input
  filter_three_panics input h = elim (Bool-cases (contains input (b'@' ∷ []))) [
    | inl marked ↦
        let (auth, serv, rest, e) = split_two b'@' [] input marked in
        elim (Bool-cases (contains serv (b':' ∷ []))) [
          | inl served ↦ inr (
              filterv6_panics input (
                filter_three_served input auth serv served
                  (sym (filter_three-split input auth serv rest marked e) ∙ h)))
          | inr portless ↦ inl (serv, rw e refl, portless)
        ]
    | inr unmarked ↦ absurd (unfold filter_three in ground arith)
  ]

  filter_four_panics :
      (input a b c d : Bytes) → filter_four net input a b c d ≡ panics → filterv6 net input ≡ panics
  unfolding filter_four
  filter_four_panics input a b c d h = ground arith

  filter_pieces_panics :
      (input : Bytes) (l : List Bytes)
      → filter_pieces net input l ≡ panics
      → LacksPort input ⊎ LacksPassword input
  unfolding filter_pieces filter_two
  filter_pieces_panics input [] h = ground arith
  filter_pieces_panics input (a ∷ []) h = ground arith
  filter_pieces_panics input (a ∷ b ∷ []) h = absurd (ground arith)
  filter_pieces_panics input (a ∷ b ∷ c ∷ []) h = filter_three_panics input h
  filter_pieces_panics input (a ∷ b ∷ c ∷ d ∷ []) h =
      inr (filterv6_panics input (filter_four_panics input a b c d h))
  filter_pieces_panics input (a ∷ b ∷ c ∷ d ∷ e ∷ l) h = inr (filterv6_panics input (ground arith))

  -- parse.go panics only on a line whose second piece, as it is split at every `@`, has no colon, or whose
  -- second piece, as it is split at every `]:`, has exactly two fields between colons.
  pub filter_panics :
      (input : Bytes) → filter net input ≡ panics → LacksPort input ⊎ LacksPassword input
  filter_panics input h = elim (Bool-cases (contains input (b':' ∷ []))) [
    | inl c ↦ filter_pieces_panics input (split input (b':' ∷ [])) (unfold filter in ground arith)
    | inr c ↦ absurd (unfold filter in ground arith)
  ]

  filter_auth-domain :
      (input auth host : Bytes)
      → Lacks b':' host
      → net.is_domain_name host ≡ true
      → filter_auth net input auth host ≡ panics
  unfolding filter_auth
  filter_auth-domain input auth host h domain = rw (split_last b':' [] host h) (rw domain)

  three_pieces :
      (input a b c : Bytes) → filter_pieces net input (a ∷ b ∷ c ∷ []) ≡ filter_three net input
  unfolding filter_pieces
  three_pieces input a b c = refl

  -- `x:y:z@host`, with no port, makes the program panic wherever the host counts as a domain name.
  pub filter_portless_panics :
      (x y z host : Bytes)
      → IsPlain x
      → IsPlain y
      → IsPlain z
      → IsPlain host
      → net.is_domain_name host ≡ true
      → filter net (x ++ (b':' ∷ (y ++ (b':' ∷ (z ++ (b'@' ∷ host)))))) ≡ panics
  filter_portless_panics x y z host hx hy hz hh domain =
      let auth : Bytes = x ++ (b':' ∷ (y ++ (b':' ∷ z))) in
      let input : Bytes = auth ++ (b'@' ∷ host) in
      filter-colons net x _ (
        colons_next x _ hx.0 (
          colons_two y (z ++ (b'@' ∷ host)) hy.0
            (All-append (λ b. b ≢ b':') z (b'@' ∷ host) hz.0 (omega arith, hh.0))))
      ∙ three_pieces _ x y (z ++ (b'@' ∷ host))
      ∙ ap (filter_three net) (simp append_assoc)
      ∙ filter_three-split input auth host [] (contains-append auth (b'@' ∷ []) host) (
          split_next b'@' [] auth host
            (Lacks-credential x (y ++ (b':' ∷ z)) hx.1 (Lacks-credential y z hy.1 hz.1))
          ∙ ap (λ l. auth ∷ l) (split_last b'@' [] host hh.1))
      ∙ rw (contains-append x (b':' ∷ []) (y ++ (b':' ∷ z)))
          (filter_auth-domain input auth host hh.0 domain)

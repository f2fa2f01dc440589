-- ===== src/Parse/Ipv6.antt =====
-- parse.go on lines with an IPv6 address in brackets.
use prox.Base.{
  ◌≡◌, ◌≢◌, refl, true, false, List, [], ◌∷◌, ◌++◌, arith, ◌∙◌, ap, sym, append_assoc, All-append,
}
use prox.Text.{Bytes, contains, split}
use prox.Text.SplitLaws.{Lacks, contains-append, split_next, split_last, split_two}
use prox.Parse.{
  Addresses, panics, canonical_or_empty, is_ok, is_number, accepted, build_proxy_string,
  filter_pieces, filter, filter_four, filterv6, filterv6_ports,
}
use prox.Text.Decimal.{atoi}
use prox.Parse.Fields.{colons, colons_two, colons_next, filter-colons, filter_split}

-- `[` and an address of at least four groups.
abbrev pub long_host : Bytes → Bytes → Bytes → Bytes → Bytes
long_host a b c d = b'[' ∷ (a ++ (b':' ∷ (b ++ (b':' ∷ (c ++ (b':' ∷ d))))))

abbrev pub bracketed : Bytes → Bytes → Bytes
bracketed host tail = host ++ (b']' ∷ b':' ∷ tail)

v6_pieces :
    (host tail : Bytes)
    → Lacks b']' host
    → Lacks b']' tail
    → split (bracketed host tail) (b']' ∷ b':' ∷ []) ≡ host ∷ tail ∷ []
v6_pieces host tail h t =
    split_next b']' (b':' ∷ []) host tail h
    ∙ ap (λ l. host ∷ l) (split_last b']' (b':' ∷ []) tail t)

nested :
    (a b c d tail : Bytes)
    → bracketed (long_host a b c d) tail
      ≡ (b'[' ∷ a) ++ (b':' ∷ (b ++ (b':' ∷ (c ++ (b':' ∷ (d ++ (b']' ∷ b':' ∷ tail)))))))
nested a b c d tail = simp append_assoc

last_colon : (d tail : Bytes) → contains (d ++ (b']' ∷ b':' ∷ tail)) (b':' ∷ []) ≡ true
last_colon d tail =
    ap (λ s. contains s (b':' ∷ [])) (sym (append_assoc d (b']' ∷ []) (b':' ∷ tail)))
    ∙ contains-append (d ++ (b']' ∷ [])) (b':' ∷ []) tail

module _ (net : Addresses) where
  filterv6-bracketed :
      (host tail : Bytes)
      → Lacks b']' host
      → Lacks b']' tail
      → filterv6 net (bracketed host tail) ≡ filterv6_ports net host (colons tail)
  unfolding filterv6
  filterv6-bracketed host tail h t = rw (v6_pieces host tail h t)

  filter_pieces_many :
      (input a b c d e : Bytes) (rest : List Bytes)
      → contains input (b'[' ∷ []) ≡ true
      → contains input (b']' ∷ b':' ∷ []) ≡ true
      → filter_pieces net input (a ∷ b ∷ c ∷ d ∷ e ∷ rest) ≡ filterv6 net input
  unfolding filter_pieces
  filter_pieces_many input a b c d e rest h k = rw (h, k)

  -- Three colons before the bracket make five pieces.
  filter_long :
      (a b c d tail : Bytes)
      → Lacks b':' a
      → Lacks b':' b
      → Lacks b':' c
      → filter net (bracketed (long_host a b c d) tail)
        ≡ filterv6 net (bracketed (long_host a b c d) tail)
  filter_long a b c d tail ha hb hc =
      let input : Bytes = bracketed (long_host a b c d) tail in
      let (p, q, ps, e) = split_two b':' [] (d ++ (b']' ∷ b':' ∷ tail)) (last_colon d tail) in
      filter_split net input (rw (nested a b c d tail) (contains-append (b'[' ∷ a) (b':' ∷ []) _)) (
        ap colons (nested a b c d tail)
        ∙ colons_next (b'[' ∷ a) _ (omega arith, ha) (colons_next b _ hb (colons_next c _ hc e)))
      ∙ filter_pieces_many input (b'[' ∷ a) b c p q ps (contains-append [] (b'[' ∷ []) _)
          (contains-append (long_host a b c d) (b']' ∷ b':' ∷ []) tail)

  -- `[address]:tail` is read as the address, with the fields of the tail.
  filter_long_ports :
      (a b c d tail : Bytes)
      → Lacks b':' a
      → Lacks b':' b
      → Lacks b':' c
      → Lacks b']' (long_host a b c d)
      → Lacks b']' tail
      → filter net (bracketed (long_host a b c d) tail)
        ≡ filterv6_ports net (long_host a b c d) (colons tail)
  filter_long_ports a b c d tail ha hb hc h t =
      filter_long a b c d tail ha hb hc ∙ filterv6-bracketed (long_host a b c d) tail h t

  -- `[address]:port` with an address of four groups or more is rewritten to the parser's canonical
  -- form; where the parser refuses it, the line is accepted as the empty string.
  pub filter_v6 :
      (a b c d port : Bytes)
      → Lacks b':' a
      → Lacks b':' b
      → Lacks b':' c
      → Lacks b']' (long_host a b c d)
      → Lacks b']' port
      → Lacks b':' port
      → let line = bracketed (long_host a b c d) port in
        filter net line ≡ canonical_or_empty (net.parse_addr_port line)
  unfolding filterv6_ports build_proxy_string
  filter_v6 a b c d port ha hb hc h t p =
      filter_long_ports a b c d port ha hb hc h t ∙ rw (split_last b':' [] port p)

  -- `[address]:port:user:pass` gives `user:pass@[address]:port` where the parser takes the address.
  pub filter_v6_credentials :
      (a b c d port username password : Bytes)
      → Lacks b':' a
      → Lacks b':' b
      → Lacks b':' c
      → Lacks b']' (long_host a b c d)
      → Lacks b']' (port ++ (b':' ∷ (username ++ (b':' ∷ password))))
      → Lacks b':' port
      → Lacks b':' username
      → Lacks b':' password
      → is_ok (net.parse_addr_port (bracketed (long_host a b c d) port)) ≡ true
      → filter net
          (bracketed (long_host a b c d) (port ++ (b':' ∷ (username ++ (b':' ∷ password)))))
        ≡ accepted (build_proxy_string username password (long_host a b c d) port true)
  unfolding filterv6_ports build_proxy_string
  filter_v6_credentials a b c d port username password ha hb hc h t p u w ok =
      filter_long_ports a b c d _ ha hb hc h t
      ∙ rw (colons_next port _ p (colons_two username password u w)) (rw ok)

  -- `[address]:port:user`, with no password, makes the program panic wherever the parser takes
  -- `[address]:port`.
  pub filter_v6_panics :
      (a b c d port username : Bytes)
      → Lacks b':' a
      → Lacks b':' b
      → Lacks b':' c
      → Lacks b']' (long_host a b c d)
      → Lacks b']' (port ++ (b':' ∷ username))
      → Lacks b':' port
      → Lacks b':' username
      → is_ok (net.parse_addr_port (bracketed (long_host a b c d) port)) ≡ true
      → filter net (bracketed (long_host a b c d) (port ++ (b':' ∷ username))) ≡ panics
  unfolding filterv6_ports build_proxy_string
  filter_v6_panics a b c d port username ha hb hc h t p u ok =
      filter_long_ports a b c d _ ha hb hc h t ∙ rw (colons_two port username p u) (rw ok)

  filter_four_second :
      (input a b c d : Bytes)
      → is_number b ≡ false
      → net.is_domain_name c ≡ true
      → is_number d ≡ true
      → filter_four net input a b c d ≡ accepted (build_proxy_string a b c d false)
  unfolding filter_four
  filter_four_second input a b c d user domain number = ground arith

  -- A compressed address of two groups, `[a::b]:port`, loses all but `b]:port`, as long as `b]` counts
  -- as a domain name and the port is a number.
  pub filter_short_v6 :
      (a b port : Bytes)
      → Lacks b':' a
      → Lacks b':' b
      → Lacks b':' port
      → net.is_domain_name (b ++ (b']' ∷ [])) ≡ true
      → is_number port ≡ true
      → filter net (b'[' ∷ (a ++ (b':' ∷ b':' ∷ (b ++ (b']' ∷ b':' ∷ port)))))
        ≡ accepted (b ++ (b']' ∷ b':' ∷ port))
  unfolding filter_pieces build_proxy_string atoi
  filter_short_v6 a b port ha hb hp domain number =
      let e = append_assoc b (b']' ∷ []) (b':' ∷ port) in
      filter-colons net (b'[' ∷ a) _ (
        colons_next (b'[' ∷ a) _ (omega arith, ha)
          (colons_next [] _ tt (
            ap colons (sym e)
            ∙ colons_two (b ++ (b']' ∷ [])) port
                (All-append (λ c. c ≢ b':') b (b']' ∷ []) hb (omega arith, tt)) hp)))
      ∙ filter_four_second _ (b'[' ∷ a) [] (b ++ (b']' ∷ [])) port refl domain number
      ∙ ap accepted e

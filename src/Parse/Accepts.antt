-- ===== src/Parse/Accepts.antt =====
-- parse.go on lines with a domain, or an IPv4 address, which counts as one.
use prox.Base.{
  ◌≡◌, ◌≢◌, refl, true, false, [], ◌∷◌, ◌++◌, arith, ◌∙◌, ap, sym, append_assoc, All-append,
}
use prox.Text.{Bytes, split}
use prox.Text.SplitLaws.{Lacks, contains-append, split_next, split_last}
use prox.Parse.{
  Addresses, is_number, build_proxy_string, accepted, filter_pieces, filter, filter_three,
  filter_auth,
}
use prox.Parse.Fields.{
  IsPlain, colons, colons_two, colons_next, colons_four, Lacks-credential, filter-colons,
}

module _ (net : Addresses) where
  -- A domain and a port are taken as they are.
  pub filter_domain :
      (host port : Bytes)
      → Lacks b':' host
      → Lacks b':' port
      → net.is_domain_name host ≡ true
      → is_number port ≡ true
      → filter net (host ++ (b':' ∷ port)) ≡ accepted (host ++ (b':' ∷ port))
  unfolding filter_pieces
  filter_domain host port h p domain number =
      filter-colons net host port (colons_two host port h p) ∙ rw (domain, number)

  filter_four_fields :
      (host port username password : Bytes)
      → Lacks b':' host
      → Lacks b':' port
      → Lacks b':' username
      → Lacks b':' password
      → net.is_domain_name host ≡ true
      → is_number port ≡ true
      → filter net (host ++ (b':' ∷ (port ++ (b':' ∷ (username ++ (b':' ∷ password))))))
        ≡ accepted (build_proxy_string username password host port false)
  unfolding filter_pieces
  filter_four_fields host port username password h p u w domain number =
      filter-colons net host _ (colons_four host port username password h p u w)
      ∙ rw (domain, number)

  filter_auth_fields :
      (input username password host port : Bytes)
      → Lacks b':' username
      → Lacks b':' password
      → Lacks b':' host
      → Lacks b':' port
      → net.is_domain_name host ≡ true
      → is_number port ≡ true
      → filter_auth net input (username ++ (b':' ∷ password)) (host ++ (b':' ∷ port))
        ≡ accepted (build_proxy_string username password host port false)
  unfolding filter_auth
  filter_auth_fields input username password host port u w h p domain number =
      rw (colons_two username password u w, colons_two host port h p) (rw (domain, number))

  filter_three_fields :
      (username password host port : Bytes)
      → IsPlain username
      → IsPlain password
      → IsPlain host
      → IsPlain port
      → net.is_domain_name host ≡ true
      → is_number port ≡ true
      → filter_three net ((username ++ (b':' ∷ password)) ++ (b'@' ∷ (host ++ (b':' ∷ port))))
        ≡ accepted (build_proxy_string username password host port false)
  unfolding filter_three
  filter_three_fields username password host port u w h p domain number =
      let auth = username ++ (b':' ∷ password) in
      let serv = host ++ (b':' ∷ port) in
      rw (contains-append auth (b'@' ∷ []) serv) (
        rw
          (ats auth serv (Lacks-credential username password u.1 w.1)
            (Lacks-credential host port h.1 p.1))
          (rw (contains-append username (b':' ∷ []) password) (
            filter_auth_fields (auth ++ (b'@' ∷ serv)) username password host port u.0 w.0 h.0 p.0
              domain number)))
    where
      ats :
          (a b : Bytes)
          → Lacks b'@' a
          → Lacks b'@' b
          → split (a ++ (b'@' ∷ b)) (b'@' ∷ []) ≡ a ∷ b ∷ []
      ats a b ha hb = split_next b'@' [] a b ha ∙ ap (λ l. a ∷ l) (split_last b'@' [] b hb)

  filter_at :
      (username password host port : Bytes)
      → IsPlain username
      → IsPlain password
      → IsPlain host
      → IsPlain port
      → net.is_domain_name host ≡ true
      → is_number port ≡ true
      → filter net (username ++ (b':' ∷ (password ++ (b'@' ∷ (host ++ (b':' ∷ port))))))
        ≡ accepted (build_proxy_string username password host port false)
  unfolding filter_pieces
  filter_at username password host port u w h p domain number =
      filter-colons net username _ (
        colons_next username _ u.0 (
          ap colons (sym (append_assoc password (b'@' ∷ host) (b':' ∷ port)))
          ∙ colons_two (password ++ (b'@' ∷ host)) port
              (All-append (λ b. b ≢ b':') password (b'@' ∷ host) w.0 (omega arith, h.0)) p.0))
      ∙ ap (filter_three net) (sym (append_assoc username (b':' ∷ password) _))
      ∙ filter_three_fields username password host port u w h p domain number

  build_proxy_string_auth :
      (username password host port : Bytes)
      → username ≢ []
      → password ≢ []
      → build_proxy_string username password host port false
        ≡ username ++ (b':' ∷ (password ++ (b'@' ∷ (host ++ (b':' ∷ port)))))
  unfolding build_proxy_string
  build_proxy_string_auth [] password host port u w = absurd (u refl)
  build_proxy_string_auth (c ∷ username) [] host port u w = absurd (w refl)
  build_proxy_string_auth (c ∷ username) (d ∷ password) host port u w = simp append_assoc

  -- `host:port:user:pass` and `user:pass@host:port` give the same text, `user:pass@host:port`, if the
  -- host counts as a domain, the port is a number, both credentials are there, and no field holds a
  -- colon or an at sign.
  pub filter_credentials :
      (username password host port : Bytes)
      → IsPlain username
      → IsPlain password
      → IsPlain host
      → IsPlain port
      → username ≢ []
      → password ≢ []
      → net.is_domain_name host ≡ true
      → is_number port ≡ true
      → let s = username ++ (b':' ∷ (password ++ (b'@' ∷ (host ++ (b':' ∷ port))))) in
        (filter net (host ++ (b':' ∷ (port ++ (b':' ∷ (username ++ (b':' ∷ password))))))
          ≡ accepted s)
        × (filter net s ≡ accepted s)
  filter_credentials username password host port u w h p some_user some_pass domain number =
      let e = build_proxy_string_auth username password host port some_user some_pass in
      (
        filter_four_fields host port username password h.0 p.0 u.0 w.0 domain number
            ∙ ap accepted e,
        filter_at username password host port u w h p domain number ∙ ap accepted e,
      )

-- ===== src/Parse.antt =====
-- parse.go: the formats of a proxy line.
pub mod Fields
pub mod Accepts
pub mod Ipv6
pub mod Panics
use prox.Base.{
  ℕ, zero, suc, ◌≡◌, Bool, true, false, not, ◌&&◌, ◌||◌, List, [], ◌∷◌, ◌++◌, Option, none, some,
  length, ltb, if◌then◌else◌,
}
use prox.Text.{Bytes, is_empty, contains, split}
use prox.Text.Decimal.{atoi}

-- The address parsers that parse.go calls. `parse_addr_port` is netip.ParseAddrPort followed by
-- `String`, and `none` is its error; `is_domain_name` is the second result of dns.IsDomainName.
pub record Addresses : Type 0 where
  pub parse_addr_port : Bytes → Option Bytes
  pub is_domain_name : Bytes → Bool

-- A run of Go code that may panic.
pub data Run {ℓ} (A : Type ℓ) : Type ℓ where
  returns : A → Run A
  panics : Run A

infixl 5 ◌>>=◌
abbrev pub ◌>>=◌ {ℓ κ} : {A : Type ℓ} {B : Type κ} → Run A → (A → Run B) → Run B
returns a >>= f = f a
panics >>= f = panics

-- `pieces[i]`
abbrev pub at : List Bytes → ℕ → Run Bytes
at [] i = panics
at (p ∷ ps) zero = returns p
at (p ∷ ps) (suc i) = at ps i

abbrev pub is_ok : Option Bytes → Bool
is_ok none = false
is_ok (some _) = true

abbrev pub is_number : Bytes → Bool
is_number s = elim (atoi s) [ none ↦ false | some _ ↦ true ]

unfoldable pub build_proxy_string : Bytes → Bytes → Bytes → Bytes → Bool → Bytes
build_proxy_string username password address port v6 =
    (if not (is_empty username) && not (is_empty password)
      then username ++ (b':' ∷ (password ++ (b'@' ∷ [])))
      else [])
    ++ (address ++ ((if v6 then b']' ∷ [] else []) ++ (b':' ∷ port)))

-- The results `(filtered, ok)`.
abbrev pub Filtered : Type 0
Filtered = Run (Bytes × Bool)

abbrev pub rejected : Filtered
rejected = returns ([], false)

abbrev pub accepted : Bytes → Filtered
accepted s = returns (s, true)

-- Where `err == nil` the canonical text, and the fall through to the last line otherwise.
abbrev pub canonical_or_empty : Option Bytes → Filtered
canonical_or_empty (some s) = accepted s
canonical_or_empty none = accepted []

module _ (net : Addresses) where
  open net use {parse_addr_port, is_domain_name}

  -- The `switch len(split2)` of filterv6.
  pub filterv6_ports : Bytes → List Bytes → Filtered
  unfolding build_proxy_string
  filterv6_ports host [] = do
    port ← at [] 0
    canonical_or_empty (parse_addr_port (build_proxy_string [] [] host port true))
  filterv6_ports host (port ∷ []) =
      canonical_or_empty (parse_addr_port (build_proxy_string [] [] host port true))
  filterv6_ports host (port ∷ username ∷ rest) =
      if is_ok (parse_addr_port (build_proxy_string [] [] host port true))
      then (do
        password ← at (port ∷ username ∷ rest) 2
        accepted (build_proxy_string username password host port true))
      else accepted []

  pub filterv6_pieces : List Bytes → Filtered
  unfolding filterv6_ports
  filterv6_pieces pieces =
      if ltb (length pieces) 2
      then rejected
      else do host ← at pieces 0; ports ← at pieces 1; filterv6_ports host (split ports (b':' ∷ []))

  unfoldable pub filterv6 : Bytes → Filtered
  unfolding filterv6_pieces
  filterv6 input = filterv6_pieces (split input (b']' ∷ b':' ∷ []))

  filter_two : Bytes → Bytes → Bytes → Filtered
  filter_two input host port =
      if is_domain_name host && is_number port
      then accepted input
      else elim (parse_addr_port input) [ none ↦ rejected | some s ↦ accepted s ]

  -- `isDomain && isNumber(splitServ[1])`: the index is read only where the host is a domain.
  abbrev pub domain_and_port : Bytes → List Bytes → Run Bool
  domain_and_port host pieces =
      if is_domain_name host
      then (do port ← at pieces 1; returns (is_number port))
      else returns false

  pub filter_auth : Bytes → Bytes → Bytes → Filtered
  filter_auth input auth serv = do
    let auths = split auth (b':' ∷ [])
    let servs = split serv (b':' ∷ [])
    host ← at servs 0
    named ← domain_and_port host servs
    if named || is_ok (parse_addr_port serv)
        then (do
          username ← at auths 0
          password ← at auths 1
          port ← at servs 1
          accepted (build_proxy_string username password host port false))
        else filterv6 input

  pub filter_three : Bytes → Filtered
  unfolding filter_auth
  filter_three input = if not (contains input (b'@' ∷ [])) then rejected else do
    let pieces = split input (b'@' ∷ [])
    auth ← at pieces 0
    if not (contains auth (b':' ∷ []))
        then rejected
        else do serv ← at pieces 1; filter_auth input auth serv

  pub filter_four : Bytes → Bytes → Bytes → Bytes → Bytes → Filtered
  filter_four input a b c d =
      if is_domain_name a && is_number b
      then accepted (build_proxy_string c d a b false)
      else if is_domain_name c && is_number d
      then accepted (build_proxy_string a b c d false)
      else if is_ok (parse_addr_port (c ++ (b':' ∷ d)))
      then accepted (build_proxy_string a b c d false)
      else if is_ok (parse_addr_port (a ++ (b':' ∷ b)))
      then accepted (build_proxy_string c d a b false)
      else filterv6 input

  -- The `switch len(split)`.
  pub filter_pieces : Bytes → List Bytes → Filtered
  unfolding filter_two filter_three filter_four
  filter_pieces input [] = rejected
  filter_pieces input (_ ∷ []) = rejected
  filter_pieces input (a ∷ b ∷ []) = filter_two input a b
  filter_pieces input (_ ∷ _ ∷ _ ∷ []) = filter_three input
  filter_pieces input (a ∷ b ∷ c ∷ d ∷ []) = filter_four input a b c d
  filter_pieces input (_ ∷ _ ∷ _ ∷ _ ∷ _ ∷ _) =
      if not (contains input (b'[' ∷ [])) || not (contains input (b']' ∷ b':' ∷ []))
      then rejected
      else filterv6 input

  unfoldable pub filter : Bytes → Filtered
  unfolding filter_pieces
  filter input =
      if not (contains input (b':' ∷ []))
      then rejected
      else filter_pieces input (split input (b':' ∷ []))

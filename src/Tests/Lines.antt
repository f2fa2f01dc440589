-- ===== src/Tests/Lines.antt =====
-- Lines and numbers.
use prox.Base.{◌≡◌, refl, true, ◌∷◌, ◌++◌, ◌⊎◌}
use prox.Text.{Bytes, codes, split, contains}
use prox.Text.Decimal.{atoi}
use prox.Parse.{filter, accepted, panics, build_proxy_string, is_number}
use prox.Parse.Accepts.{filter_credentials}
use prox.Parse.Ipv6.{long_host, bracketed, filter_v6}
use prox.Parse.Panics.{LacksPort, LacksPassword, filter_panics, filter_portless_panics}
use prox.Tests.World.{lenient, lacks-Lacks, is_plain-IsPlain, filled_lem}

-- The formats of parse_test.go.
two_fields : filter lenient (codes "5.8.7.7:53") ≡ accepted (codes "5.8.7.7:53")
unfolding filter split atoi build_proxy_string contains
two_fields = refl

four_fields :
    filter lenient (codes "127.0.0.1:1234:tcp:direct")
    ≡ accepted (codes "tcp:direct@127.0.0.1:1234")
unfolding filter split atoi build_proxy_string contains
four_fields = refl

port_is_number : is_number (codes "80") ≡ true
unfolding atoi
port_is_number = refl

abbrev line_with_credentials : Bytes
line_with_credentials =
    codes "u" ++ (b':' ∷ (codes "p" ++ (b'@' ∷ (codes "host" ++ (b':' ∷ codes "80")))))

filter_credentials_example :
    (filter lenient
        (codes "host" ++ (b':' ∷ (codes "80" ++ (b':' ∷ (codes "u" ++ (b':' ∷ codes "p"))))))
      ≡ accepted line_with_credentials)
    × (filter lenient line_with_credentials ≡ accepted line_with_credentials)
filter_credentials_example =
    filter_credentials lenient (codes "u") (codes "p") (codes "host") (codes "80")
      (is_plain-IsPlain (codes "u") refl) (is_plain-IsPlain (codes "p") refl)
      (is_plain-IsPlain (codes "host") refl) (is_plain-IsPlain (codes "80") refl)
      (filled_lem (codes "u") refl) (filled_lem (codes "p") refl) refl port_is_number

abbrev test_host : Bytes
test_host = long_host (codes "1") (codes "2") (codes "3") (codes "4:5:6:7:8")

filter_v6_example :
    filter lenient (bracketed test_host (codes "80")) ≡ accepted (bracketed test_host (codes "80"))
filter_v6_example =
    filter_v6 lenient (codes "1") (codes "2") (codes "3") (codes "4:5:6:7:8") (codes "80")
      (lacks-Lacks b':' (codes "1") refl) (lacks-Lacks b':' (codes "2") refl)
      (lacks-Lacks b':' (codes "3") refl) (lacks-Lacks b']' test_host refl)
      (lacks-Lacks b']' (codes "80") refl) (lacks-Lacks b':' (codes "80") refl)

portless_line :
    filter lenient
      (codes "x" ++ (b':' ∷ (codes "y" ++ (b':' ∷ (codes "z" ++ (b'@' ∷ codes "host"))))))
    ≡ panics
portless_line =
    filter_portless_panics lenient (codes "x") (codes "y") (codes "z") (codes "host")
      (is_plain-IsPlain (codes "x") refl) (is_plain-IsPlain (codes "y") refl)
      (is_plain-IsPlain (codes "z") refl) (is_plain-IsPlain (codes "host") refl) refl

filter_panics_example : LacksPort (codes "x:y:z@host") ⊎ LacksPassword (codes "x:y:z@host")
filter_panics_example = filter_panics lenient (codes "x:y:z@host") portless_line

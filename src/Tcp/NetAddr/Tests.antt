-- ===== src/Tcp/NetAddr/Tests.antt =====
-- Addresses of rocket/net/tcp/net_addr.cc.
use my_rocket.Base.{◌≡◌, ◌↔◌, [], ◌∷◌, Text, true, arith}
use my_rocket.Tcp.NetAddr.{Inet, check_valid, of_string, to_string, of_ip_port}
use my_rocket.Tcp.NetAddr.Laws.{IsHostPort, check_valid_iff, of_string-to_string}

-- An `inet_addr` that knows one host.
abbrev net : Inet
net = record { inet_addr = λ s. 7; inet_ntoa = λ n. b'h' ∷ [] }

abbrev host : Text
host = b'h' ∷ []

check_valid_iff_example :
    (check_valid (b'h' ∷ b':' ∷ b'8' ∷ []) ≡ true) ↔ IsHostPort (b'h' ∷ b':' ∷ b'8' ∷ [])
check_valid_iff_example = check_valid_iff (b'h' ∷ b':' ∷ b'8' ∷ [])

of_string-to_string_example :
    of_string net (to_string (of_ip_port net host 8080)) ≡ of_ip_port net host 8080
of_string-to_string_example =
    of_string-to_string net host 8080 ((λ e. omega (arith, e)), tt) (omega arith)

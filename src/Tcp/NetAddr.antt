-- ===== src/Tcp/NetAddr.antt =====
-- rocket/net/tcp/net_addr.h and net_addr.cc. `inet_addr` and `inet_ntoa` of the C library are the
-- parameter `Inet`; an IPv4 address is a number below 2^32.
pub mod Laws
mod Tests
use my_rocket.Base.{
  ℕ, ◌+◌, ◌-◌, ◌*◌, ◌/◌, ◌%◌, ◌^◌, ◌≡◌, ◌<◌, Bool, true, false, ◌&&◌, ◌||◌, not, List, [], ◌∷◌,
  ◌++◌, take, drop, ltb, leb, ◌==◌, if◌then◌else◌, ℤ, pos, negsuc, to_u32, Option, none, some, Text,
  find_first_of, atoi, decimal,
}

pub record Inet : Type 0 where
  pub inet_addr : Text → ℕ
  pub inet_ntoa : ℕ → Text

abbrev pub inaddr_none : ℕ
inaddr_none = 2 ^ 32 - 1

abbrev pub af_inet : ℕ
af_inet = 2

-- `sockaddr_in`, its port in network order.
pub record SockAddr : Type 0 where
  pub family : ℕ
  pub addr : ℕ
  pub port_net : ℕ

-- `m_addr` is `none` where a constructor returns without setting it.
pub record IpNetAddr : Type 0 where
  pub ip : Text
  pub port : ℕ
  pub sock : Option SockAddr

-- `htons`, and `ntohs`, on a 16-bit number.
abbrev pub htons : ℕ → ℕ
htons n = n % 256 * 256 + n / 256

abbrev pub is_empty : Text → Bool
is_empty [] = true
is_empty (c ∷ s) = false

-- `iport <= 0 || iport > 65536`
abbrev pub is_port : ℤ → Bool
is_port (pos n) = ltb 0 n && leb n 65536
is_port (negsuc n) = false

-- The static `CheckValid`.
unfoldable pub check_valid : Text → Bool
check_valid addr = elim (find_first_of b':' addr) [
  | none ↦ false
  | some i ↦
      let ip = take i addr in
      let port = drop (i + 1) addr in
      if is_empty ip || is_empty port then false else is_port (atoi port)
]

-- The conversion of an `int` to `uint16_t`.
abbrev pub to_u16 : ℤ → ℕ
to_u16 n = to_u32 n % 2 ^ 16

module _ (net : Inet) where
  unfoldable pub of_ip_port : Text → ℕ → IpNetAddr
  of_ip_port ip port = record {
    ip = ip;
    port = port;
    sock = some (record { family = af_inet; addr = net.inet_addr ip; port_net = htons port });
  }

  -- `IPNetAddr(const std::string& addr)`
  unfoldable pub of_string : Text → IpNetAddr
  of_string addr = elim (find_first_of b':' addr) [
    | none ↦ record { ip = []; port = 0; sock = none }
    | some i ↦ of_ip_port (take i addr) (to_u16 (atoi (drop (i + 1) addr)))
  ]

  unfoldable pub of_sock : SockAddr → IpNetAddr
  of_sock s = record { ip = net.inet_ntoa s.addr; port = htons s.port_net; sock = some s }

  -- The method `checkValid`; a `uint16_t` is never negative.
  unfoldable pub is_usable : IpNetAddr → Bool
  is_usable a =
      if is_empty a.ip
      then false
      else if ltb 65536 a.port
      then false
      else not (net.inet_addr a.ip == inaddr_none)

unfoldable pub to_string : IpNetAddr → Text
to_string a = a.ip ++ (b':' ∷ decimal a.port)

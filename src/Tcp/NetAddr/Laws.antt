-- ===== src/Tcp/NetAddr/Laws.antt =====
-- What `CheckValid` accepts, and the round trip of `toString`.
use my_rocket.Base.{
  ℕ, ◌+◌, ◌^◌, ◌≤◌, ◌<◌, ◌≡◌, ◌≢◌, refl, sym, ap, ◌∙◌, ◌↔◌, inl, inr, true, false, ◌||◌, [], ◌∷◌,
  ◌++◌, length, take, drop, if◌then◌else◌, ℤ, pos, negsuc, Text, atoi, decimal, atoi-decimal,
  decimal-ne-nil, Without, find_first_of-append, find_first_of_cases, take-append, drop-append,
  append_assoc, arith, length-append,
}
use my_rocket.Tcp.NetAddr.{
  Inet, is_empty, is_port, check_valid, to_u16, of_ip_port, of_string, to_string,
}

-- What stands before and behind the first colon.
split_colon :
    (ip port : Text)
    → (take (length ip) (ip ++ b':' ∷ port) ≡ ip)
      × (drop (length ip + 1) (ip ++ b':' ∷ port) ≡ port)
split_colon ip port = (
  take-append (length ip) ip (b':' ∷ port) refl,
  ap (drop (length ip + 1)) (sym (append_assoc ip (b':' ∷ []) port))
      ∙ drop-append (length ip + 1) (ip ++ b':' ∷ []) port
          (omega (arith, length-append {0} {A = ℕ} ip (b':' ∷ []))),
)

pub of_string-append :
    (net : Inet) (ip port : Text)
    → Without b':' ip
    → of_string net (ip ++ b':' ∷ port) ≡ of_ip_port net ip (to_u16 (atoi port))
unfolding of_string
of_string-append net ip port w =
    let (front, back) = split_colon ip port in
    rw (find_first_of-append b':' ip port w, of_string, front, back) refl

pub check_valid-append :
    (ip port : Text)
    → Without b':' ip
    → check_valid (ip ++ b':' ∷ port)
      ≡ (if is_empty ip || is_empty port then false else is_port (atoi port))
unfolding check_valid
check_valid-append ip port w =
    let (front, back) = split_colon ip port in
    rw (find_first_of-append b':' ip port w, check_valid, front, back) refl

-- An address whose text has no colon and whose port is a `uint16_t` is read back from what
-- `toString` prints, socket address included.
pub of_string-to_string :
    (net : Inet) (ip : Text) (port : ℕ)
    → Without b':' ip
    → port < 2 ^ 16
    → of_string net (to_string (of_ip_port net ip port)) ≡ of_ip_port net ip port
unfolding to_string of_ip_port
of_string-to_string net ip port w h =
    let kept : to_u16 (atoi (decimal port)) ≡ port =
      rw (atoi-decimal port (omega arith)) (omega arith) in
    of_string-append net ip (decimal port) w ∙ (unfold of_ip_port in rw kept refl)

-- A host, a colon and a port that `CheckValid` takes.
pub record IsHostPort (addr : Text) : Type 0 where
  pub ip : Text
  pub port : Text
  pub number : ℕ
  pub parts : addr ≡ ip ++ b':' ∷ port
  pub host : Without b':' ip
  pub some_ip : ip ≢ []
  pub some_port : port ≢ []
  pub value : atoi port ≡ pos number
  pub positive : 0 < number
  pub at_most : number ≤ 65536

is_empty_ne : (s : Text) → s ≢ [] → is_empty s ≡ false
is_empty_ne [] h = absurd (h refl)
is_empty_ne (c ∷ s) h = refl

is_port_lem : (z : ℤ) → is_port z ≡ true → (n : ℕ) × (z ≡ pos n) × (0 < n) × (n ≤ 65536)
is_port_lem (pos n) h = (n, refl, ground arith, ground arith)
is_port_lem (negsuc n) h = cc

accepted :
    (ip port : Text)
    → (if is_empty ip || is_empty port then false else is_port (atoi port)) ≡ true
    → (ip ≢ []) × (port ≢ []) × ((n : ℕ) × (atoi port ≡ pos n) × (0 < n) × (n ≤ 65536))
accepted [] port h = cc
accepted (c ∷ ip) [] h = cc
accepted (c ∷ ip) (d ∷ port) h = ((λ e. cc), (λ e. cc), is_port_lem (atoi (d ∷ port)) h)

-- `CheckValid` accepts exactly the texts with a nonempty part before the first colon, and behind it
-- a nonempty part that `atoi` reads as a number from 1 to 65536: one that starts with such a number,
-- behind any spaces and a sign, or with a greater one that an `int` wraps to it.
pub check_valid_iff : (addr : Text) → (check_valid addr ≡ true) ↔ IsHostPort addr
check_valid_iff addr = (forth, back)
  where
    forth : check_valid addr ≡ true → IsHostPort addr
    forth h = elim (find_first_of_cases b':' addr) [
      | inl (e, _) ↦ unfold check_valid in cc (rw (e, check_valid) at h)
      | inr (ip, port, parts, host, _) ↦
          let (some_ip, some_port, (n, value, positive, at_most)) =
            accepted ip port (rw (parts, check_valid-append ip port host) at h) in
          record {
            ip = ip;
            port = port;
            number = n;
            parts = parts;
            host = host;
            some_ip = some_ip;
            some_port = some_port;
            value = value;
            positive = positive;
            at_most = at_most;
          }
    ]

    back : IsHostPort addr → check_valid addr ≡ true
    back p =
        rw
          (
            p.parts,
            check_valid-append p.ip p.port p.host,
            is_empty_ne p.ip p.some_ip,
            is_empty_ne p.port p.some_port,
            p.value,
          )
          (ground (arith, p.positive, p.at_most))

-- The port 65536 is accepted for every host, and the address made of it has port 0.
pub check_valid_wraps :
    (net : Inet) (ip : Text)
    → Without b':' ip
    → ip ≢ []
    → let addr = ip ++ (b':' ∷ decimal 65536) in
      (check_valid addr ≡ true) × ((of_string net addr).port ≡ 0)
check_valid_wraps net ip w ne = (
  rw (
    check_valid-append ip (decimal 65536) w,
    is_empty_ne ip ne,
    is_empty_ne (decimal 65536) (decimal-ne-nil 65536),
    atoi-decimal 65536 (omega arith),
  ),
  rw (of_string-append net ip (decimal 65536) w, atoi-decimal 65536 (omega arith))
      (unfold of_ip_port in refl),
)

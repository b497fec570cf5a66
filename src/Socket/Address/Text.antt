-- ===== src/Socket/Address/Text.antt =====
-- The text of an address, and the port in both orders of its bytes.
use talib.Prelude.{
  decimal, bytes, ℕ, ◌-◌, ◌/◌, ◌%◌, ◌≤◌, ◌<◌, ◌≡◌, refl, true, Option, none, some, List, ◌∷◌, ◌++◌,
  arith, ltb, length, take, length-append, take_all,
}
use talib.Prelude.{length-decimal_below}
use talib.Socket.Address.{
  host_to_network16, network_to_host16, inet, from_ip_port, dotted, to_ip, to_port, write_ip_port,
  to_ip_port,
}

pub network_to_host16-host_to_network16 :
    (port : ℕ) → port < 65536 → network_to_host16 (host_to_network16 port) ≡ port
unfolding network_to_host16 host_to_network16
network_to_host16-host_to_network16 port h = omega arith

joined :
    (a b c d : List ℕ)
    → length a ≤ 3
    → length b ≤ 3
    → length c ≤ 3
    → length d ≤ 3
    → length (a ++ (b'.' ∷ b) ++ (b'.' ∷ c) ++ (b'.' ∷ d)) ≤ 15
joined a b c d la lb lc ld = simp (length-append) (omega arith)

length-dotted : (s_addr : ℕ) → length (dotted s_addr) ≤ 15
unfolding dotted
length-dotted s_addr =
    joined (decimal (s_addr % 256)) (decimal (s_addr / 256 % 256)) (decimal (s_addr / 65536 % 256))
      (decimal (s_addr / 16777216 % 256)) (byte (s_addr % 256) (omega arith))
      (byte (s_addr / 256 % 256) (omega arith)) (byte (s_addr / 65536 % 256) (omega arith))
      (byte (s_addr / 16777216 % 256) (omega arith))
  where
    byte : (n : ℕ) → n < 256 → length (decimal n) ≤ 3
    byte n h = length-decimal_below 2 n (omega arith)

-- The text of an address of four bytes.
inet_text :
    (inet_ntop6 : List ℕ → List ℕ) (s_addr port : ℕ)
    → port < 65536
    → to_ip_port inet_ntop6 (inet (host_to_network16 port) s_addr)
      ≡ some (dotted s_addr ++ b':' ∷ decimal port)
unfolding to_ip_port write_ip_port to_ip to_port
inet_text inet_ntop6 s_addr port h =
    let l = length-dotted s_addr in
    let fits : ltb (length (dotted s_addr)) 64 ≡ true = ground arith in
    let p = network_to_host16-host_to_network16 port h in
    let d = length-decimal_below 4 port (omega arith) in
    let whole : take (64 - length (dotted s_addr) - 1) (b':' ∷ decimal port) ≡ b':' ∷ decimal port =
      take_all (64 - length (dotted s_addr) - 1) (b':' ∷ decimal port) (omega arith) in
    rw (fits, p, whole) refl

-- An address that is made of the text of four bytes, as `inet_pton` reads it, and of a port prints as
-- that text, a colon and the decimal port, whole in its array; no assertion fails.
pub to_ip_port-from_ip_port :
    (inet_pton : List ℕ → Option ℕ) (inet_ntop6 : List ℕ → List ℕ) (s_addr port : ℕ)
    → inet_pton (dotted s_addr) ≡ some s_addr
    → port < 65536
    → to_ip_port inet_ntop6 (from_ip_port inet_pton (dotted s_addr) port)
      ≡ some (dotted s_addr ++ b':' ∷ decimal port)
unfolding from_ip_port
to_ip_port-from_ip_port inet_pton inet_ntop6 s_addr port e h =
    rw (from_ip_port, e) (inet_text inet_ntop6 s_addr port h)

-- A text that `inet_pton` refuses is taken for the address 0.0.0.0.
pub refused_text_lem :
    (inet_pton : List ℕ → Option ℕ) (inet_ntop6 : List ℕ → List ℕ) (ip : List ℕ) (port : ℕ)
    → inet_pton ip ≡ none
    → port < 65536
    → to_ip_port inet_ntop6 (from_ip_port inet_pton ip port)
      ≡ some (bytes "0.0.0.0:" ++ decimal port)
unfolding from_ip_port dotted decimal
refused_text_lem inet_pton inet_ntop6 ip port e h =
    rw (from_ip_port, e) (inet_text inet_ntop6 0 port h)

-- ===== src/Socket/Address.antt =====
-- src/Socket/InetAddress.h, InetAddress.cpp, SocketHelp.cpp and src/common/Endian.h, on a machine that
-- stores the low byte first. `inet_pton` and `inet_ntop` for addresses of 16 bytes are arguments;
-- `none` is a failed assertion.
pub mod Text
mod Tests
use talib.Prelude.{
  decimal, ℕ, ◌+◌, ◌-◌, ◌*◌, ◌/◌, ◌%◌, Bool, Option, none, some, List, [], ◌∷◌, ◌++◌, ltb, leb,
  if◌then◌else◌, ◌>>=◌, ◌>>◌, assert, length, take, replicate,
}

-- `htobe16`, `be16toh`, `htobe32` and `be32toh`.
unfoldable pub host_to_network16 : ℕ → ℕ
host_to_network16 host16 = host16 % 256 * 256 + host16 / 256 % 256

unfoldable pub network_to_host16 : ℕ → ℕ
network_to_host16 net16 = net16 % 256 * 256 + net16 / 256 % 256

unfoldable pub host_to_network32 : ℕ → ℕ
host_to_network32 host32 =
    host32 % 256 * 16777216
    + host32 / 256 % 256 * 65536
    + host32 / 65536 % 256 * 256
    + host32 / 16777216 % 256

-- The two members of the union: the port and `s_addr`, or the port and 16 bytes.
pub data InetAddress : Type 0 where
  inet : ℕ → ℕ → InetAddress
  inet6 : ℕ → List ℕ → InetAddress

-- in6addr_loopback and in6addr_any.
abbrev pub in6addr : Bool → List ℕ
in6addr loopback_only = replicate 15 0 ++ (if loopback_only then 1 else 0) ∷ []

-- INADDR_LOOPBACK is 127.0.0.1.
abbrev pub inaddr : Bool → ℕ
inaddr loopback_only = if loopback_only then 2130706433 else 0

unfoldable pub new_address : ℕ → Bool → Bool → InetAddress
unfolding host_to_network16 host_to_network32
new_address port loopback_only ipv6 =
    if ipv6
    then inet6 (host_to_network16 port) (in6addr loopback_only)
    else inet (host_to_network16 port) (host_to_network32 (inaddr loopback_only))

-- A text that `inet_pton` refuses leaves the cleared address.
unfoldable pub from_ip_port : (List ℕ → Option ℕ) → List ℕ → ℕ → InetAddress
unfolding host_to_network16
from_ip_port inet_pton ip port = elim (inet_pton ip) [
  | none ↦ inet (host_to_network16 port) 0
  | some s_addr ↦ inet (host_to_network16 port) s_addr
]

-- `inet_ntop` of four bytes, the first of which is the low one of `s_addr`.
unfoldable pub dotted : ℕ → List ℕ
dotted s_addr =
    decimal (s_addr % 256)
    ++ (b'.' ∷ decimal (s_addr / 256 % 256))
    ++ (b'.' ∷ decimal (s_addr / 65536 % 256))
    ++ (b'.' ∷ decimal (s_addr / 16777216 % 256))

-- `sockets::toIp`; INET_ADDRSTRLEN is 16, INET6_ADDRSTRLEN 46.
unfoldable pub to_ip : (List ℕ → List ℕ) → ℕ → InetAddress → Option (List ℕ)
unfolding dotted
to_ip inet_ntop6 size (inet port s_addr) = do assert (leb 16 size); some (dotted s_addr)
to_ip inet_ntop6 size (inet6 port ip) = do assert (leb 46 size); some (inet_ntop6 ip)

abbrev pub port_of : InetAddress → ℕ
port_of (inet port s_addr) = port
port_of (inet6 port ip) = port

unfoldable pub to_port : InetAddress → ℕ
unfolding network_to_host16
to_port a = network_to_host16 (port_of a)

-- `sockets::toIpPort`: `snprintf` cuts what does not fit.
unfoldable pub write_ip_port : (List ℕ → List ℕ) → ℕ → InetAddress → Option (List ℕ)
unfolding to_ip to_port
write_ip_port inet_ntop6 size a = do
  buf ← to_ip inet_ntop6 size a
  assert (ltb (length buf) size)
  some (buf ++ take (size - length buf - 1) (b':' ∷ decimal (to_port a)))

-- InetAddress::toIpPort, in an array of 64 bytes.
unfoldable pub to_ip_port : (List ℕ → List ℕ) → InetAddress → Option (List ℕ)
unfolding write_ip_port
to_ip_port inet_ntop6 a = write_ip_port inet_ntop6 64 a

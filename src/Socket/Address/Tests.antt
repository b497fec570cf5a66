-- ===== src/Socket/Address/Tests.antt =====
-- The address 127.0.0.1, for src/Socket/InetAddress.cpp.
use talib.Prelude.{
  decimal, bytes, str_eq, ℕ, ◌≡◌, refl, true, false, Option, none, some, List, ◌++◌, arith,
  if◌then◌else◌,
}
use talib.Socket.Address.{
  new_address, from_ip_port, dotted, to_ip, to_port, write_ip_port, to_ip_port, host_to_network16,
  host_to_network32, network_to_host16,
}
use talib.Socket.Address.Text.{to_ip_port-from_ip_port}

abbrev loopback : ℕ
loopback = 16777343

loopback_text : dotted loopback ≡ bytes "127.0.0.1"
unfolding dotted decimal
loopback_text = refl

-- It knows this address alone.
abbrev inet_pton : List ℕ → Option ℕ
inet_pton ip = if str_eq ip (bytes "127.0.0.1") then some loopback else none

abbrev inet_ntop6 : List ℕ → List ℕ
inet_ntop6 ip = bytes "::1"

knows : inet_pton (dotted loopback) ≡ some loopback
unfolding dotted decimal str_eq
knows = refl

to_ip_port-from_ip_port_example :
    to_ip_port inet_ntop6 (from_ip_port inet_pton (dotted loopback) 8080)
    ≡ some (dotted loopback ++ bytes ":8080")
unfolding decimal
to_ip_port-from_ip_port_example =
    to_ip_port-from_ip_port inet_pton inet_ntop6 loopback 8080 knows (omega arith)

-- A server for this machine alone.
local_server : to_ip_port inet_ntop6 (new_address 80 true false) ≡ some (bytes "127.0.0.1:80")
unfolding to_ip_port write_ip_port to_ip to_port new_address host_to_network16 host_to_network32
    network_to_host16 dotted decimal
local_server = refl

-- ===== src/Component/Session/Routing.antt =====
-- The choice between a multicast and a unicast socket in `setupSocket` of cpp/SinkSDDS.cpp.
use sink_sdds.Base.{ℕ, ◌%◌, ◌^◌, ◌<◌, ◌≡◌, ◌≢◌, ◌&&◌, arith, ltb, Text, codes}
use sink_sdds.Packet.Bytes.{htonl}
use sink_sdds.Sockets.{Os}
use sink_sdds.Component.Session.{is_multicast}

-- What the C library documents of its conversions, at an address: `inet_network` gives the number of
-- a dotted address in host order and `inet_addr` the same in network order.
pub record ConvertsAddress (os : Os) (ip : Text) (a : ℕ) : Type 0 where
  pub low : os.inet_network (codes "224.0.0.0") ≡ 0xE0000000
  pub high : os.inet_network (codes "239.255.255.250") ≡ 0xEFFFFFFA
  pub host_order : os.inet_network ip ≡ a
  pub network_order : os.inet_addr ip ≡ htonl a
  pub range : a < 2 ^ 32

-- If the C library converts addresses as documented, the upper bound is compared in network order,
-- where the last octet of the address comes first. So, for a last octet other than 239, an address counts as multicast exactly when it is above 224.0.0.0
-- and its last octet is below 240, whatever its first octet is.
pub is_multicast_lem :
    (os : Os) (ip : Text) (a : ℕ)
    → ConvertsAddress os ip a
    → a % 256 ≢ 239
    → is_multicast os ip ≡ (ltb 0xE0000000 a && ltb (a % 256) 240)
unfolding is_multicast htonl
is_multicast_lem os ip a v h = rw (v.low, v.high, v.host_order, v.network_order) (ground arith)

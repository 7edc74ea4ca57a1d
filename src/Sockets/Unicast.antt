-- ===== src/Sockets/Unicast.antt =====
-- The connection that `unicast_server` of cpp/socketUtils/unicast.cpp returns.
use sink_sdds.Base.{
  ℕ, ◌%◌, ◌^◌, Bool, true, false, ◌&&◌, Option, none, some, List, [], ◌∷◌, if◌then◌else◌, Text,
}
use sink_sdds.Packet.Bytes.{htons}
use sink_sdds.Processor.Types.{Connection}
use sink_sdds.Sockets.{Device, Os, matches}

-- A device that `unicast_open_` accepts: it is the interface asked for, its flags can be read, it is up
-- and its index can be read. A loopback device is not refused.
abbrev pub is_some : Option ℕ → Bool
is_some none = false
is_some (some x) = true

abbrev pub serves_unicast : Text → Device → Bool
serves_unicast iface dev =
    matches iface dev.name && (dev.flags_read && (dev.up && is_some dev.index))

abbrev pub any_serves : Text → List Device → Bool
any_serves iface [] = false
any_serves iface (dev ∷ devs) = if serves_unicast iface dev then true else any_serves iface devs

-- The connection to a unicast address.
abbrev pub unicast_connection : Os → Text → ℕ → ℕ → Connection
unicast_connection os group port sock = record {
  sock = sock;
  address = os.inet_addr group;
  port = htons (port % 2 ^ 16);
}

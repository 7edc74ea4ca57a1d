-- ===== src/Sockets.antt =====
-- cpp/socketUtils: opening the socket that the packets leave by. A socket and an `int` port are their
-- 32-bit patterns. VERIFY and VERIFY_ERR throw; outside the `try` of the device loop that ends the
-- call, inside it the next device is tried.
pub mod Matching
pub mod Unicast
pub mod Multicast
pub mod Resources
pub mod Clients
use sink_sdds.Base.{
  ℕ, ◌-◌, ◌%◌, ◌^◌, Bool, true, false, not, ◌&&◌, ◌||◌, Option, none, some, List, [], ◌∷◌,
  if◌then◌else◌, ◌==◌, ltb, leb, length, drop, Text, same_text, bit_and,
}
use sink_sdds.Packet.Bytes.{htons}
use sink_sdds.Processor.Types.{Connection}

-- An entry of the device list, with what the `ioctl`s about it return.
pub record Device : Type 0 where
  pub name : Text
  pub address : ℕ
  pub flags_read : Bool
  pub up : Bool
  pub loopback : Bool
  pub multicast : Bool
  pub index : Option ℕ

-- The system calls, as the answers that the system gives. Addresses are in network order but for
-- `inet_network`. The interface to use is given by its address and its index.
pub record Os : Type 0 where
  pub socket : ℕ
  pub reuse_address : Bool
  pub malloc : Bool
  pub devices : Option (List Device)
  pub inet_aton : Text → Option ℕ
  pub inet_addr : Text → ℕ
  pub inet_network : Text → ℕ
  pub set_multicast_if : ℕ → ℕ → ℕ → Bool
  pub bind : Connection → Bool
  pub add_membership : ℕ → ℕ → ℕ → Bool
  pub set_ttl : ℕ → Bool

-- The result of opening a socket: the connection that is returned, or an exception.
pub data Opened : Type 0 where
  opened : Connection → Opened
  thrown : Opened

abbrev pub minus_one : ℕ
minus_one = 2 ^ 32 - 1

abbrev pub is_negative : ℕ → Bool
is_negative n = leb (2 ^ 31) n

-- The body of the `try`: a step may set the address of the connection, and may throw.
abbrev pub Attempt : Type 0
Attempt = Connection → Connection × Bool

abbrev pub require : Bool → Attempt → Attempt
require true next c = next c
require false next c = (c, false)

abbrev require_some : Option ℕ → (ℕ → Attempt) → Attempt
require_some none next c = (c, false)
require_some (some x) next c = next x c

abbrev set_addr : ℕ → ℕ → Attempt → Attempt
set_addr address port next c = next (record c { address = address; port = htons (port % 2 ^ 16) })

abbrev success : Attempt
success c = (c, true)

unfoldable pub starts_with_dot : Text → Bool
starts_with_dot [] = false
starts_with_dot (c ∷ cs) = c == 46

-- The three ways in which a device is the interface that is asked for.
unfoldable pub any_match : Text → Bool
any_match [] = true
any_match (c ∷ cs) = false

unfoldable pub any_interface_vlan_match : Text → Text → Bool
unfolding starts_with_dot same_text
any_interface_vlan_match iface name =
    starts_with_dot iface
    && leb (length iface) (length name)
    && same_text (drop (length name - length iface) name) iface

unfoldable pub matches : Text → Text → Bool
unfolding any_match any_interface_vlan_match same_text
matches iface name = any_match iface || any_interface_vlan_match iface name || same_text iface name

-- `!((address & 0x000000FF) < 224) || ((address & 0x000000FF) > 239)`
unfoldable pub joins_group : ℕ → Bool
joins_group address = not (ltb (bit_and address 0xFF) 224) || ltb 239 (bit_and address 0xFF)

-- The device loop's body in `multicast_open_`, for any interface and for a chosen one.
unfoldable pub multicast_any : Os → Text → ℕ → Attempt
unfolding joins_group
multicast_any os group port = require_some (os.inet_aton group) λ multiaddr.
    require (os.set_multicast_if multiaddr 0 0) (
      set_addr 0 port λ c.
        require (os.bind c)
          (require (not (joins_group multiaddr) || os.add_membership multiaddr 0 0) success) c)

unfoldable pub multicast_chosen : Os → Text → ℕ → Device → Attempt
unfolding joins_group
multicast_chosen os group port dev = require_some dev.index λ index.
    require_some (os.inet_aton group) λ multiaddr.
      require (os.set_multicast_if multiaddr dev.address index) (
        set_addr multiaddr port λ c.
          require (os.bind c)
            (require (not (joins_group c.address) || os.add_membership multiaddr dev.address index)
              success)
            c)

unfoldable pub multicast_try : Os → Text → Text → ℕ → Device → Attempt
unfolding any_match multicast_any multicast_chosen
multicast_try os iface group port dev = require dev.flags_read (
    require dev.up (
      require (not dev.loopback) (
        require dev.multicast (
          if any_match iface
          then multicast_any os group port
          else multicast_chosen os group port dev))))

-- The same in `unicast_open_`, where the device's index is read and not used; its `bind` is for
-- clients only.
unfoldable pub unicast_try : Os → Text → ℕ → Device → Attempt
unicast_try os group port dev =
    require dev.flags_read
      (require dev.up (require_some dev.index λ index. set_addr (os.inet_addr group) port success))

-- The loop over the devices: the first match whose body does not throw is taken.
unfoldable pub search_devices : (Device → Attempt) → Text → List Device → Connection → Opened
unfolding matches
search_devices try iface [] c = opened (record c { sock = minus_one })
search_devices try iface (dev ∷ devs) c =
    let tried = (if matches iface dev.name then try dev c else (c, false)) in
    let rest = search_devices try iface devs tried.0 in if tried.1 then opened tried.0 else rest

-- The connection before a device is tried.
abbrev pub fresh : Os → Connection
fresh os = record { sock = os.socket; address = 0; port = 0 }

-- What `multicast_open_` and `unicast_open_` share.
unfoldable pub open_socket : Os → (Device → Attempt) → Text → Opened
unfolding search_devices
open_socket os try iface =
    if is_negative os.socket || not os.reuse_address || not os.malloc
    then thrown
    else (elim os.devices [
      | none ↦ thrown
      | some devs ↦
          search_devices try iface devs (record { sock = os.socket; address = 0; port = 0 })
    ])

-- The time to live is set on a socket that was opened.
abbrev pub with_ttl : Os → Opened → Opened
with_ttl os thrown = thrown
with_ttl os (opened c) =
    if not (c.sock == minus_one) && not (os.set_ttl c.sock) then thrown else opened c

unfoldable pub multicast_server : Os → Text → Text → ℕ → Opened
unfolding open_socket multicast_try
multicast_server os iface group port =
    with_ttl os (open_socket os (multicast_try os iface group port) iface)

unfoldable pub unicast_server : Os → Text → Text → ℕ → Opened
unfolding open_socket unicast_try
unicast_server os iface group port = with_ttl os (open_socket os (unicast_try os group port) iface)

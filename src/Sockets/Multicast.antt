-- ===== src/Sockets/Multicast.antt =====
-- The address that the packets go to on a connection of `multicast_server` of
-- cpp/socketUtils/multicast.cpp, and the groups that it joins.
use sink_sdds.Base.{
  ℕ, ◌%◌, ◌^◌, ◌≡◌, ◌⊎◌, refl, Bool, true, false, not, ◌&&◌, ◌||◌, Option, none, some, List, [],
  ◌∷◌, inl, inr, arith, if◌then◌else◌, ◌==◌, leb, if_both, if_split, Text,
}
use sink_sdds.Packet.Bytes.{htons}
use sink_sdds.Processor.Types.{Connection}
use sink_sdds.Sockets.{
  Device, Os, Opened, opened, thrown, minus_one, is_negative, Attempt, require, any_match, matches,
  multicast_any, multicast_chosen, multicast_try, search_devices, open_socket, multicast_server,
  unicast_try, unicast_server, with_ttl,
}
use sink_sdds.Sockets.{fresh, joins_group}
use sink_sdds.Base.{bit_and_low}

-- The first octet of an address in network order is its low byte: a group is joined exactly if that octet
-- is at least 224, so that the bound 239 of the source has no effect.
joins_group_lem : (address : ℕ) → joins_group address ≡ leb 224 (address % 256)
unfolding joins_group
joins_group_lem address = ground (arith, bit_and_low 8 address)

-- The call threw, or returned the socket -1, or a connection as `P` says.
abbrev pub Returns : (Connection → Type 0) → Opened → Type 0
Returns P thrown = Unit
Returns P (opened c) = (c.sock ≡ minus_one) ⊎ P c

search-Returns :
    (P : Connection → Type 0) (try : Device → Attempt) (iface : Text)
    → ((dev : Device) (c : Connection) → (try dev c).1 ≡ true → P ((try dev c).0))
    → (devs : List Device) (c : Connection) → Returns P (search_devices try iface devs c)
unfolding search_devices
search-Returns P try iface good [] c = inl refl
search-Returns P try iface good (dev ∷ devs) c =
    let tried : Connection × Bool = (if matches iface dev.name then try dev c else (c, false)) in
    let fine : tried.1 ≡ true → P tried.0 =
      if_split (λ (r : Connection × Bool). r.1 ≡ true → P r.0) (matches iface dev.name) (try dev c)
        (c, false) (λ _. good dev c) (λ _ e. absurd (cc)) in
    if_split (Returns P) tried.1 (opened tried.0) _ (λ e. inr (fine e))
      (λ _. search-Returns P try iface good devs tried.0)

-- The destination of the packets: the group, or the address 0 where any interface will do.
abbrev pub HasAddress : Os → Text → Bool → Connection → Type 0
HasAddress os group true c = c.address ≡ 0
HasAddress os group false c = os.inet_aton group ≡ some c.address

abbrev pub Destination : Os → Text → Text → ℕ → Connection → Type 0
Destination os iface group port c =
    (c.port ≡ htons (port % 2 ^ 16)) × HasAddress os group (any_match iface) c

multicast_any-address :
    (os : Os) (group : Text) (port : ℕ) (c : Connection)
    → (multicast_any os group port c).1 ≡ true
    → ((multicast_any os group port c).0.port ≡ htons (port % 2 ^ 16))
      × ((multicast_any os group port c).0.address ≡ 0)
unfolding multicast_any
multicast_any-address os group port c h = ground arith

multicast_chosen-address :
    (os : Os) (group : Text) (port : ℕ) (dev : Device) (c : Connection)
    → (multicast_chosen os group port dev c).1 ≡ true
    → ((multicast_chosen os group port dev c).0.port ≡ htons (port % 2 ^ 16))
      × (os.inet_aton group ≡ some ((multicast_chosen os group port dev c).0.address))
unfolding multicast_chosen
multicast_chosen-address os group port dev c h = ground arith

through :
    (P : Connection → Type 0) (b : Bool) (next : Attempt) (c : Connection)
    → ((next c).1 ≡ true → P ((next c).0))
    → (require b next c).1 ≡ true
    → P ((require b next c).0)
through P true next c h = h
through P false next c h = λ e. absurd (cc)

multicast_try-Destination :
    (os : Os) (iface group : Text) (port : ℕ) (dev : Device) (c : Connection)
    → (multicast_try os iface group port dev c).1 ≡ true
    → Destination os iface group port (multicast_try os iface group port dev c).0
unfolding multicast_try
multicast_try-Destination os iface group port dev c =
    let D = Destination os iface group port in
    through D dev.flags_read _ c (
      through D dev.up _ c (
        through D (not dev.loopback) _ c
          (through D dev.multicast _ c (chosen (any_match iface) refl))))
  where
    chosen :
        (b : Bool)
        → any_match iface ≡ b
        → let next : Attempt =
            (if b then multicast_any os group port else multicast_chosen os group port dev) in
          (next c).1 ≡ true → Destination os iface group port (next c).0
    chosen true e h = let a = multicast_any-address os group port c h in (a.0, rw e a.1)
    chosen false e h = let a = multicast_chosen-address os group port dev c h in (a.0, rw e a.1)

with_ttl-Returns :
    (P : Connection → Type 0) (os : Os) (r : Opened) → Returns P r → Returns P (with_ttl os r)
with_ttl-Returns P os thrown h = tt
with_ttl-Returns P os (opened c) h =
    if_both (Returns P) (not (c.sock == minus_one) && not (os.set_ttl c.sock)) thrown (opened c) tt
      h

open_socket-Returns :
    (P : Connection → Type 0) (os : Os) (try : Device → Attempt) (iface : Text)
    → ((dev : Device) (c : Connection) → (try dev c).1 ≡ true → P ((try dev c).0))
    → Returns P (open_socket os try iface)
unfolding open_socket
open_socket-Returns P os try iface good =
    if_both (Returns P) (is_negative os.socket || not os.reuse_address || not os.malloc) thrown _ tt
      (found os.devices)
  where
    found :
        (o : Option (List Device))
        → Returns P (elim o [ none ↦ thrown | some ds ↦ search_devices try iface ds (fresh os) ])
    found none = tt
    found (some ds) = search-Returns P try iface good ds (fresh os)

unicast_try-address :
    (os : Os) (group : Text) (port : ℕ) (dev : Device) (c : Connection)
    → (unicast_try os group port dev c).1 ≡ true
    → ((unicast_try os group port dev c).0.port ≡ htons (port % 2 ^ 16))
      × ((unicast_try os group port dev c).0.address ≡ os.inet_addr group)
unfolding unicast_try
unicast_try-address os group port dev c h = ground arith

-- Whatever `unicast_open_` makes of a device, a connection that it accepts has the address and port.
pub unicast_server-Returns :
    (os : Os) (iface group : Text) (port : ℕ)
    → Returns
        (λ c. (c.port ≡ htons (port % 2 ^ 16)) × (c.address ≡ os.inet_addr group))
        (unicast_server os iface group port)
unfolding unicast_server
unicast_server-Returns os iface group port =
    let P : Connection → Type 0 =
      λ c. (c.port ≡ htons (port % 2 ^ 16)) × (c.address ≡ os.inet_addr group) in
    with_ttl-Returns P os _ (
      open_socket-Returns P os (unicast_try os group port) iface
        (unicast_try-address os group port))

-- A connection that `multicast_server` returns with a socket other than -1 has the port asked for, and
-- the group's address if an interface was named. If the interface is blank its address is 0.0.0.0,
-- whatever the group.
pub multicast_server-Destination :
    (os : Os) (iface group : Text) (port : ℕ)
    → Returns (Destination os iface group port) (multicast_server os iface group port)
unfolding multicast_server
multicast_server-Destination os iface group port =
    let D = Destination os iface group port in
    let try = multicast_try os iface group port in
    with_ttl-Returns D os _
      (open_socket-Returns D os try iface (multicast_try-Destination os iface group port))

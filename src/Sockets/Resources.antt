-- ===== src/Sockets/Resources.antt =====
-- The sockets and the buffer that `multicast_server` and `unicast_server` of cpp/socketUtils hold: the same
-- calls as in the parent module, which return what the process has open afterwards too.
pub mod Left
use sink_sdds.Base.{
  ℕ, zero, suc, ◌+◌, ◌-◌, ◌^◌, ◌<◌, ◌≡◌, ◌≢◌, ◌⊎◌, refl, sym, ap, ◌∙◌, Bool, true, false, not, ◌&&◌,
  ◌||◌, Option, none, some, List, [], ◌∷◌, arith, if◌then◌else◌, ◌==◌, leb, Text, if_both, if_split,
  Bool-cases, inl, inr, ==_iff,
}
use sink_sdds.Processor.Types.{Connection}
use sink_sdds.Sockets.{
  Device, Os, Opened, opened, thrown, minus_one, is_negative, Attempt, matches, any_match,
  multicast_any, multicast_chosen, multicast_try, unicast_try, search_devices, open_socket,
  multicast_server, unicast_server, with_ttl, fresh,
}

-- The descriptors that are open, the latest first, and the number of buffers that are not freed.
pub record Resources : Type 0 where
  pub sockets : List ℕ
  pub buffers : ℕ

abbrev pub remove : ℕ → List ℕ → List ℕ
remove s [] = []
remove s (x ∷ xs) = if s == x then xs else x ∷ remove s xs

abbrev pub close_fd : ℕ → Resources → Resources
close_fd s r = record r { sockets = remove s r.sockets }

abbrev pub free : Resources → Resources
free r = record r { buffers = r.buffers - 1 }

-- A success frees the buffer; after the last device the socket is closed and the buffer freed.
unfoldable pub search_devices_in :
    (Device → Attempt) → Text → List Device → Connection → Resources → Opened × Resources
search_devices_in try iface [] c r =
    (opened (record c { sock = minus_one }), free (close_fd c.sock r))
search_devices_in try iface (dev ∷ devs) c r =
    let tried = (if matches iface dev.name then try dev c else (c, false)) in
    let rest = search_devices_in try iface devs tried.0 r in
    if tried.1 then (opened tried.0, free r) else rest

abbrev pub enumerate_in :
    Os → (Device → Attempt) → Text → Option (List Device) → Resources → Opened × Resources
enumerate_in os try iface none r = (thrown, r)
enumerate_in os try iface (some devs) r = search_devices_in try iface devs (fresh os) r

-- Each of the four conditions throws with what is held at that point.
unfoldable pub open_socket_in : Os → (Device → Attempt) → Text → Resources → Opened × Resources
unfolding search_devices_in
open_socket_in os try iface r =
    let made = record r { sockets = os.socket ∷ r.sockets } in
    let allocated = record made { buffers = suc made.buffers } in
    if is_negative os.socket
    then (thrown, r)
    else (if not os.reuse_address
        then (thrown, made)
        else (if not os.malloc
            then (thrown, made)
            else enumerate_in os try iface os.devices allocated))

unfoldable pub multicast_server_in : Os → Text → Text → ℕ → Resources → Opened × Resources
unfolding open_socket_in
multicast_server_in os iface group port r =
    let (result, after) = open_socket_in os (multicast_try os iface group port) iface r in
    (with_ttl os result, after)

unfoldable pub unicast_server_in : Os → Text → Text → ℕ → Resources → Opened × Resources
unfolding open_socket_in
unicast_server_in os iface group port r =
    let (result, after) = open_socket_in os (unicast_try os group port) iface r in
    (with_ttl os result, after)

-- Whether the buffer is left when an exception leaves the function.
abbrev pub buffer_left : Bool → Bool → Bool → Option (List Device) → ℕ
buffer_left false true true none = 1
buffer_left _ _ _ _ = 0

-- What is left after an exception: the socket, if one could be made, and perhaps the buffer.
abbrev pub leaked : Bool → ℕ → Bool → Bool → Option (List Device) → Resources → Resources
leaked negative socket reuse malloc devices r = record {
  sockets = (if negative then r.sockets else socket ∷ r.sockets);
  buffers = r.buffers + buffer_left negative reuse malloc devices;
}

-- What is left after a connection: its socket, and nothing if that is -1.
abbrev pub after_result : Resources → Opened → Resources → Resources
after_result lost (opened c) r =
    if c.sock == minus_one then r else record r { sockets = c.sock ∷ r.sockets }
after_result lost thrown r = lost

abbrev pub left : Os → Opened → Resources → Resources
left os result r =
    after_result (leaked (is_negative os.socket) os.socket os.reuse_address os.malloc os.devices r)
      result r

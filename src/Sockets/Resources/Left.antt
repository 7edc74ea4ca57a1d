-- ===== src/Sockets/Resources/Left.antt =====
-- What `multicast_server` and `unicast_server` of cpp/socketUtils leave open, by their result.
use sink_sdds.Base.{
  ℕ, suc, ◌≡◌, ◌⊎◌, refl, sym, ap, ◌∙◌, subst, Bool, true, false, not, ◌&&◌, ◌||◌, Option, none,
  some, List, [], ◌∷◌, arith, if◌then◌else◌, ◌==◌, Text, if_both, if_split, Bool-cases, inl, inr,
}
use sink_sdds.Processor.Types.{Connection}
use sink_sdds.Sockets.{
  Device, Os, Opened, opened, thrown, minus_one, is_negative, Attempt, matches, multicast_any,
  multicast_chosen, multicast_try, unicast_try, search_devices, open_socket, multicast_server,
  unicast_server, with_ttl, fresh,
}
use sink_sdds.Sockets.Resources.{
  Resources, close_fd, free, search_devices_in, enumerate_in, open_socket_in, multicast_server_in,
  unicast_server_in, leaked, after_result, left,
}

multicast_any-sock :
    (os : Os) (group : Text) (port : ℕ) (c : Connection)
    → (multicast_any os group port c).0.sock ≡ c.sock
unfolding multicast_any
multicast_any-sock os group port c = ground arith

multicast_chosen-sock :
    (os : Os) (group : Text) (port : ℕ) (dev : Device) (c : Connection)
    → (multicast_chosen os group port dev c).0.sock ≡ c.sock
unfolding multicast_chosen
multicast_chosen-sock os group port dev c = ground arith

-- The body of the `try` keeps the socket.
abbrev KeepsSocket : (Device → Attempt) → Type 0
KeepsSocket try = (dev : Device) (c : Connection) → (try dev c).0.sock ≡ c.sock

multicast_try-sock :
    (os : Os) (iface group : Text) (port : ℕ) → KeepsSocket (multicast_try os iface group port)
unfolding multicast_try
multicast_try-sock os iface group port dev c =
    ground (arith, multicast_any-sock os group port c, multicast_chosen-sock os group port dev c)

unicast_try-sock : (os : Os) (group : Text) (port : ℕ) → KeepsSocket (unicast_try os group port)
unfolding unicast_try
unicast_try-sock os group port dev c = ground arith

-- What is open while the devices are searched.
abbrev searching : ℕ → Resources → Resources
searching s r = record { sockets = s ∷ r.sockets; buffers = suc r.buffers }

found :
    (lost : Resources) (c : Connection) (s : ℕ) (r : Resources)
    → c.sock ≡ s
    → (s == minus_one) ≡ false
    → free (searching s r) ≡ after_result lost (opened c) r
found lost c s r e valid = ground arith

nothing_left : (s : ℕ) (r : Resources) → free (close_fd s (searching s r)) ≡ r
nothing_left s r = ground arith

-- The socket of the connection is `s`, or -1.
abbrev Ends : ℕ → Opened → Type 0
Ends s result = (c : Connection) × (result ≡ opened c) × ((c.sock ≡ minus_one) ⊎ (c.sock ≡ s))

module _ (try : Device → Attempt) (iface : Text) (keeps : KeepsSocket try) (s : ℕ)
    (valid : (s == minus_one) ≡ false) where
  tried-sock :
      (dev : Device) (c : Connection)
      → c.sock ≡ s
      → let tried = (if matches iface dev.name then try dev c else (c, false)) in tried.0.sock ≡ s
  tried-sock dev c e =
      if_both (λ (t : Connection × Bool). t.0.sock ≡ s) (matches iface dev.name) (try dev c)
        (c, false) (keeps dev c ∙ e) e

  search_devices_in_lem :
      (lost : Resources) (devs : List Device) (c : Connection) (r : Resources)
      → c.sock ≡ s
      → let result = search_devices try iface devs c in
        search_devices_in try iface devs c (searching s r) ≡ (result, after_result lost result r)
  unfolding search_devices search_devices_in
  search_devices_in_lem lost [] c r e =
      ap (λ (x : Resources). (opened (record c { sock = minus_one }), x))
        (ap (λ (n : ℕ). free (close_fd n (searching s r))) e ∙ nothing_left s r)
  search_devices_in_lem lost (dev ∷ devs) c r e =
      let tried : Connection × Bool = (if matches iface dev.name then try dev c else (c, false)) in
      let same : tried.0.sock ≡ s = tried-sock dev c e in
      elim (Bool-cases tried.1) [
        | inl taken ↦
            rw taken
              (ap (λ (x : Resources). (opened tried.0, x)) (found lost tried.0 s r same valid))
        | inr missed ↦ rw missed (search_devices_in_lem lost devs tried.0 r same)
      ]

  search_devices-Ends :
      (devs : List Device) (c : Connection) → c.sock ≡ s → Ends s (search_devices try iface devs c)
  unfolding search_devices
  search_devices-Ends [] c e = (record c { sock = minus_one }, refl, inl refl)
  search_devices-Ends (dev ∷ devs) c e =
      let tried : Connection × Bool = (if matches iface dev.name then try dev c else (c, false)) in
      let same : tried.0.sock ≡ s = tried-sock dev c e in
      if_both (Ends s) tried.1 (opened tried.0) _ (tried.0, refl, inr same)
        (search_devices-Ends devs tried.0 same)

-- Setting the time to live opens and closes nothing.
with_ttl_lem :
    (os : Os) (result : Opened) (r : Resources)
    → Ends os.socket result
    → let lost = record r { sockets = os.socket ∷ r.sockets } in
      after_result lost result r ≡ after_result lost (with_ttl os result) r
with_ttl_lem os result r (c, e, sock) = ground (arith, e, sock)

socket-valid : (s : ℕ) → is_negative s ≡ false → (s == minus_one) ≡ false
socket-valid s h = ground arith

-- A server function in two ways: with what it holds, and as in the parent module.
server_lem :
    (os : Os) (try : Device → Attempt) (iface : Text) (r : Resources)
    → KeepsSocket try
    → let run = open_socket_in os try iface r in
      let result = with_ttl os (open_socket os try iface) in
      let ran : Opened × Resources = (with_ttl os run.0, run.1) in ran ≡ (result, left os result r)
unfolding open_socket open_socket_in
server_lem os try iface r keeps =
    cases (is_negative os.socket) os.reuse_address os.malloc os.devices (socket-valid os.socket)
  where
    cases :
        (negative reuse malloc : Bool) (devices : Option (List Device))
        → (negative ≡ false → (os.socket == minus_one) ≡ false)
        → let made : Resources = record r { sockets = os.socket ∷ r.sockets } in
          let opening : Opened =
            (if negative || not reuse || not malloc then thrown else (elim devices [
              | none ↦ thrown
              | some devs ↦ search_devices try iface devs (fresh os)
            ])) in
          let result : Opened = with_ttl os opening in
          let run : Opened × Resources =
            (if negative
              then (thrown, r)
              else (if not reuse
                  then (thrown, made)
                  else (if not malloc
                      then (thrown, made)
                      else enumerate_in os try iface devices (searching os.socket r)))) in
          let ran : Opened × Resources = (with_ttl os run.0, run.1) in
          ran ≡ (result, after_result (leaked negative os.socket reuse malloc devices r) result r)
    cases true reuse malloc devices valid = ground arith
    cases false false malloc devices valid = ground arith
    cases false true false devices valid = ground arith
    cases false true true none valid = ground arith
    cases false true true (some devs) valid =
        let lost : Resources = record r { sockets = os.socket ∷ r.sockets } in
        let opening : Opened = search_devices try iface devs (fresh os) in
        let same : leaked false os.socket true true (some devs) r ≡ lost = ground arith in
        let ends =
          search_devices-Ends try iface keeps os.socket (valid refl) devs (fresh os) refl in
        ap (λ (x : Opened × Resources). (with_ttl os x.0, x.1))
          (search_devices_in_lem try iface keeps os.socket (valid refl) lost devs (fresh os) r refl)
        ∙ ap (λ (x : Resources). (with_ttl os opening, x))
            (with_ttl_lem os opening r ends
              ∙ ap (λ (x : Resources). after_result x (with_ttl os opening) r) (sym same))

-- `multicast_server` and `unicast_server` return, or throw, the same as without the account of what is
-- open. When they return a connection, its socket is open and nothing else that was not before; when they
-- return the socket -1, what is open is what was. When they throw, the socket stays open if one could
-- be made, and the buffer is left if the device list could not be read.
pub servers-left :
    (os : Os) (iface group : Text) (port : ℕ) (r : Resources)
    → let m = multicast_server os iface group port in
      let u = unicast_server os iface group port in
      (multicast_server_in os iface group port r ≡ (m, left os m r))
      × (unicast_server_in os iface group port r ≡ (u, left os u r))
unfolding multicast_server unicast_server multicast_server_in unicast_server_in
servers-left os iface group port r = (
  server_lem os (multicast_try os iface group port) iface r
      (multicast_try-sock os iface group port),
  server_lem os (unicast_try os group port) iface r (unicast_try-sock os group port),
)

-- A connection that is returned has the socket -1, or the one that the system made.
abbrev pub Ended : Os → Opened → Type 0
Ended os (opened c) =
    (c.sock ≡ minus_one) ⊎ ((c.sock ≡ os.socket) × (is_negative os.socket ≡ false))
Ended os thrown = Unit

server-Ended :
    (os : Os) (try : Device → Attempt) (iface : Text)
    → KeepsSocket try
    → Ended os (with_ttl os (open_socket os try iface))
unfolding open_socket
server-Ended os try iface keeps =
    if_split (λ (o : Opened). Ended os (with_ttl os o))
      (is_negative os.socket || not os.reuse_address || not os.malloc) thrown _ (λ _. tt)
      (λ h. searched (ground arith) os.devices)
  where
    ttl : (o : Opened) → Ended os o → Ended os (with_ttl os o)
    ttl thrown h = tt
    ttl (opened c) h =
        if_both (Ended os) (not (c.sock == minus_one) && not (os.set_ttl c.sock)) thrown (opened c)
          tt h

    ends : is_negative os.socket ≡ false → (o : Opened) → Ends os.socket o → Ended os o
    ends valid o (c, e, inl none_found) = subst (Ended os) (sym e) (inl none_found)
    ends valid o (c, e, inr same) = subst (Ended os) (sym e) (inr (same, valid))

    searched :
        is_negative os.socket ≡ false
        → (devices : Option (List Device))
        → Ended os (
            with_ttl os (elim devices [
              | none ↦ thrown
              | some devs ↦ search_devices try iface devs (fresh os)
            ]))
    searched valid none = tt
    searched valid (some devs) =
        let result : Opened = search_devices try iface devs (fresh os) in
        ttl result (
          ends valid result (
            search_devices-Ends try iface keeps os.socket (socket-valid os.socket valid) devs
              (fresh os) refl))

pub servers-Ended :
    (os : Os) (iface group : Text) (port : ℕ)
    → Ended os (multicast_server os iface group port)
      × Ended os (unicast_server os iface group port)
unfolding multicast_server unicast_server
servers-Ended os iface group port = (
  server-Ended os (multicast_try os iface group port) iface
      (multicast_try-sock os iface group port),
  server-Ended os (unicast_try os group port) iface (unicast_try-sock os group port),
)

-- ===== src/Sockets/Clients.antt =====
-- The rest of cpp/socketUtils/multicast.cpp and unicast.cpp: clients, receiving, sending, polling and closing.
-- A timeout is the 32-bit pattern of an `int`.
use sink_sdds.Base.{
  ℕ, ◌^◌, ◌≤◌, ◌<◌, ◌≡◌, refl, sym, ap, true, not, ◌&&◌, Option, none, some, List, if◌then◌else◌,
  ◌==◌, Text, arith,
}
use sink_sdds.Processor.Types.{Connection}
use sink_sdds.Sockets.{
  Os, Opened, opened, thrown, is_negative, unicast_try, multicast_try, open_socket, with_ttl,
  multicast_server, unicast_server,
}
use sink_sdds.Sockets.Resources.{Resources, close_fd}

-- How a client function ends: with a connection, with the exception BadParameterError, or, after an
-- exception that its specification does not name, by `std::unexpected`.
data Exit : Type 0 where
  returned : Connection → Exit
  bad_parameter terminated : Exit

-- The exceptions of `multicast_open_` are BadParameterErrors, those of `unicast_open_` are not.
abbrev reporting : Opened → Exit
reporting (opened c) = returned c
reporting thrown = bad_parameter

abbrev unexpecting : Opened → Exit
unexpecting (opened c) = returned c
unexpecting thrown = terminated

multicast_client : Os → Text → Text → ℕ → Exit
multicast_client os iface group port =
    reporting (open_socket os (multicast_try os iface group port) iface)

-- That the address cannot be bound is only printed.
unicast_client : Os → Text → Text → ℕ → Exit
unicast_client os iface group port = unexpecting (open_socket os (unicast_try os group port) iface)

-- The flags of `recv`: none, MSG_DONTWAIT, MSG_WAITALL.
data Flags : Type 0 where
  no_flags dont_wait wait_all : Flags

-- The system calls on an open socket: `poll` for input, whose result is the pattern of an `int`, `recv` of at
-- most so many bytes, and `sendto`.
record Io : Type 0 where
  pub poll : ℕ → ℕ → ℕ
  pub recv : ℕ → ℕ → Flags → ℕ
  pub sendto : Connection → List ℕ → ℕ

-- `none` is the exception BadParameterError3.
unicast_poll_in : Io → Connection → ℕ → Option Flags
unicast_poll_in io client timeout =
    if not (timeout == 0) && not (is_negative timeout)
    then (let polled = io.poll client.sock timeout in
        if is_negative polled
        then none
        else (if polled == 0 then some no_flags else some dont_wait))
    else (if timeout == 0 then some dont_wait else some wait_all)

-- The number of bytes; without flags nothing is received.
abbrev receive_with : Io → Connection → ℕ → Option Flags → Option ℕ
receive_with io client bytes none = none
receive_with io client bytes (some no_flags) = some 0
receive_with io client bytes (some dont_wait) = some (io.recv client.sock bytes dont_wait)
receive_with io client bytes (some wait_all) = some (io.recv client.sock bytes wait_all)

-- The timeout is an `unsigned int` that is passed on as an `int`.
unicast_receive : Io → Connection → ℕ → ℕ → Option ℕ
unfolding unicast_poll_in
unicast_receive io client bytes timeout =
    receive_with io client bytes (unicast_poll_in io client timeout)

multicast_receive : Io → Connection → ℕ → ℕ
multicast_receive io client bytes = io.recv client.sock bytes no_flags

multicast_poll_in : Io → Connection → ℕ → ℕ
multicast_poll_in io client timeout = io.poll client.sock timeout

-- `multicast_transmit` and `unicast_transmit`, and `multicast_close` and `unicast_close`, are the same.
transmit : Io → Connection → List ℕ → ℕ
transmit io server buffer = io.sendto server buffer

close : Connection → Resources → Resources
close socket r = close_fd socket.sock r

with_ttl-set : (os : Os) → ((sock : ℕ) → os.set_ttl sock ≡ true) → (o : Opened) → with_ttl os o ≡ o
with_ttl-set os works thrown = refl
with_ttl-set os works (opened c) = ground (arith, works c.sock)

-- Where the time to live can be set, a client function returns a connection exactly when the server function
-- does, and the same one. When the server function throws, `multicast_client` throws the exception that its
-- specification names, and `unicast_client` ends the process.
clients-servers :
    (os : Os) (iface group : Text) (port : ℕ)
    → ((sock : ℕ) → os.set_ttl sock ≡ true)
    → (multicast_client os iface group port ≡ reporting (multicast_server os iface group port))
      × (unicast_client os iface group port ≡ unexpecting (unicast_server os iface group port))
unfolding multicast_client unicast_client multicast_server unicast_server
clients-servers os iface group port works = (
  ap reporting
      (sym (with_ttl-set os works (open_socket os (multicast_try os iface group port) iface))),
  ap unexpecting (sym (with_ttl-set os works (open_socket os (unicast_try os group port) iface))),
)

-- A timeout of 2 ^ 31 milliseconds or more makes `unicast_receive` wait for all bytes without an end. With a
-- smaller one it never waits in `recv`: what `recv` would do if it waited, or without flags, does not matter.
unicast_receive-timeout :
    (io other : Io) (client : Connection) (bytes timeout : ℕ)
    → ((sock ms : ℕ) → other.poll sock ms ≡ io.poll sock ms)
    → ((sock n : ℕ) → other.recv sock n dont_wait ≡ io.recv sock n dont_wait)
    → (2 ^ 31 ≤ timeout
        → unicast_receive io client bytes timeout ≡ some (io.recv client.sock bytes wait_all))
      × (timeout < 2 ^ 31
          → unicast_receive other client bytes timeout ≡ unicast_receive io client bytes timeout)
unfolding unicast_receive unicast_poll_in
unicast_receive-timeout io other client bytes timeout polls receives = (
  λ long. ground (arith, long),
  λ short. ground (arith, short, polls client.sock timeout, receives client.sock bytes),
)

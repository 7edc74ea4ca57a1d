-- ===== src/Component/Session/Descriptors.antt =====
-- The sockets that `start` and `stop` of cpp/SinkSDDS.cpp open and close: each with the account of what is open,
-- and the courses that a component takes through them.
pub mod Attempt
pub mod Owned
pub mod Leaks
use sink_sdds.Base.{
  ℕ, ◌^◌, ◌<◌, ◌≡◌, ◌≢◌, ◌⊎◌, inl, inr, refl, sym, ap, subst, ◌∙◌, Bool, true, false, not, ◌&&◌,
  Option, some, none, List, [], ◌∷◌, ◌++◌, arith, if◌then◌else◌, ◌==◌, Bool-cases, if_both,
  if_split,
}
use sink_sdds.Settings.{NetworkSettings}
use sink_sdds.Processor.Types.{
  Native, octet, short, float, Processor, Env, Read, Stream, Connection,
}
use sink_sdds.Processor.Lifecycle.{Uninitialized}
use sink_sdds.Sockets.{
  Os, Opened, opened, thrown, minus_one, is_negative, any_match, multicast_server, unicast_server,
}
use sink_sdds.Sockets.Resources.{
  Resources, remove, close_fd, multicast_server_in, unicast_server_in, left, after_result, leaked,
}
use sink_sdds.Sockets.Resources.Left.{servers-left, Ended, servers-Ended}
use sink_sdds.Component.{
  Component, no_connection, create, new_stream, streams_done, promote, give, proc, with_proc, deck,
  with_deck, stream_is_active, stream_is_on_deck, drop_on_deck_stream,
}
use sink_sdds.Component.Decks.{streams_done_cases}
use sink_sdds.Component.Session.{
  is_multicast, vlan_interface, open_server, connected, setup_socket, configure, usable, start,
  stop, set_network_settings_struct,
}
use sink_sdds.Component.Session.Lifetime.{setup_socket-IsKept, stop_lem}

unfoldable pub open_server_in : Os → NetworkSettings → Resources → Opened × Resources
unfolding multicast_server_in unicast_server_in
open_server_in os n r =
    let interface = vlan_interface n.interface n.vlan in
    if is_multicast os n.ip_address
    then multicast_server_in os interface n.ip_address n.port r
    else unicast_server_in os interface n.ip_address n.port r

-- What is open after `start`, and after `stop`.
unfoldable pub start_in : Os → Component → Resources → Resources
unfolding open_server_in
start_in os c r =
    if c.started
    then r
    else (if any_match c.network_settings.ip_address
        then r
        else (open_server_in os c.network_settings r).1)

unfoldable pub stop_in : Bool → Component → Resources → Resources
stop_in died c r =
    if died then (if c.connection.sock == 0 then r else close_fd c.connection.sock r) else r

abbrev pub nothing_open : Resources
nothing_open = record { sockets = []; buffers = 0 }

-- A component from its construction through calls of `start`, where opening the socket does not throw
-- and the system gives out no descriptor 0, of `stop`, where the service thread ends, of the setter of
-- the network settings, and of the listeners and callbacks; with what is open.
pub data Course (E : Env) : Component → Resources → Type 0 where
  created : (f s o : Uninitialized) → Course E (create E f s o) nothing_open
  starts :
      {c : Component} {r : Resources} (os : Os) (rs : List Read)
      → Course E c r
      → open_server os c.network_settings ≢ thrown
      → 0 < os.socket
      → Course E (start E os rs c).0 (start_in os c r)
  stops :
      {c : Component} {r : Resources} (floats shorts octets : List Read)
      → Course E c r
      → Course E (stop E true floats shorts octets c).0 (stop_in true c r)
  sets :
      {c : Component} {r : Resources} (n : NetworkSettings)
      → Course E c r
      → Course E (set_network_settings_struct n c) r
  hears :
      {c : Component} {r : Resources} (n : Native) (rs : List Read) (x : Stream)
      → Course E c r
      → Course E (new_stream E rs n x c) r
  calls_back :
      {c : Component} {r : Resources} (rs : List Read)
      → Course E c r
      → Course E (streams_done E rs c) r

-- The socket of the connection while the component is started, and nothing else.
abbrev pub owned : Bool → Connection → Resources
owned started k = record { sockets = (if started then k.sock ∷ [] else []); buffers = 0 }

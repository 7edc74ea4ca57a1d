-- ===== src/Component/Session.antt =====
-- Starting and stopping the component, its property setters and its connection listener
-- (cpp/SinkSDDS.cpp, cpp/SinkSDDS_base.cpp).
pub mod Routing
pub mod Opening
pub mod Lifetime
pub mod Announcing
pub mod Descriptors
use text.Mathlib.Text.{◌==◌ as str_eq}
use sink_sdds.Base.{
  ℕ, String, Bool, true, false, not, ◌&&◌, Option, none, some, List, [], ◌∷◌, ◌++◌, if◌then◌else◌,
  ◌==◌, ltb, Text, codes, decimal,
}
use sink_sdds.Settings.{NetworkSettings, SddsSettings, OverrideSddsHeader}
use sink_sdds.Processor.Types.{Env, Read, Processor}
use sink_sdds.Processor.Calls.{push_sri_to}
use sink_sdds.Processor.Loop.{shutdown}
use sink_sdds.Processor.Lifecycle.{
  run, join, set_attach_settings, set_connection, set_override_header_settings,
}
use sink_sdds.Processor.Lifecycle
use sink_sdds.Sockets.{
  Os, Opened, opened, thrown, minus_one, is_negative, any_match, multicast_server, unicast_server,
}
use sink_sdds.Component.{Component, no_connection}

unfoldable pub set_override_sdds_header_struct : OverrideSddsHeader → Component → Component
set_override_sdds_header_struct request c =
    if c.started then c else record c { override_sdds_header = request }

unfoldable pub set_sdds_settings_struct : SddsSettings → Component → Component
set_sdds_settings_struct request c = if c.started then c else record c { sdds_settings = request }

unfoldable pub set_network_settings_struct : NetworkSettings → Component → Component
set_network_settings_struct request c =
    if c.started then c else record c { network_settings = request }

-- The test of `setupSocket` between a multicast and a unicast address.
unfoldable pub is_multicast : Os → Text → Bool
is_multicast os ip =
    ltb (os.inet_network (codes "224.0.0.0")) (os.inet_network ip)
    && ltb (os.inet_addr ip) (os.inet_network (codes "239.255.255.250"))

-- The name of the interface with its VLAN, a number of at most five digits.
unfoldable pub vlan_interface : Text → ℕ → Text
vlan_interface interface vlan =
    if vlan == 0 then interface else interface ++ (codes "." ++ decimal 5 vlan)

unfoldable pub open_server : Os → NetworkSettings → Opened
unfolding is_multicast vlan_interface
open_server os n =
    let interface = vlan_interface n.interface n.vlan in
    if is_multicast os n.ip_address
    then multicast_server os interface n.ip_address n.port
    else unicast_server os interface n.ip_address n.port

abbrev pub connected : Component → Opened → Component × Option ℕ
connected c (opened connection) = (record c { connection = connection }, some connection.sock)
connected c thrown = (record c { connection = no_connection }, none)

-- The component afterwards, and the value returned; `none` if an exception is thrown.
unfoldable pub setup_socket : Os → Component → Component × Option ℕ
unfolding open_server
setup_socket os c =
    if any_match c.network_settings.ip_address
    then (record c { connection = no_connection }, some minus_one)
    else connected c (open_server os c.network_settings)

-- What `start` hands to a processor before the socket is opened.
unfoldable pub configure : Component → Processor → Processor
configure c p = set_attach_settings c.attach_settings (
    set_override_header_settings c.override_sdds_header
      (Lifecycle.set_sdds_settings c.sdds_settings p))

unfoldable pub connect_and_run : Env → List Read → Component → Processor → Processor
connect_and_run E reads c p = run E reads (set_connection c.connection c.network_settings.vlan p)

abbrev pub usable : Option ℕ → Bool
usable none = false
usable (some sock) = not (is_negative sock)

-- `false` stands for StartError.
unfoldable pub start : Env → Os → List Read → Component → Component × Bool
unfolding configure setup_socket connect_and_run
start E os reads c =
    let configured = record c {
      floatproc = configure c c.floatproc;
      shortproc = configure c c.shortproc;
      octetproc = configure c c.octetproc;
    } in
    let (ready, socket) = setup_socket os configured in
    if c.started
    then (c, true)
    else (if usable socket
        then (
          record ready {
            octetproc = connect_and_run E reads ready ready.octetproc;
            shortproc = connect_and_run E reads ready ready.shortproc;
            floatproc = connect_and_run E reads ready ready.floatproc;
            started = true;
          },
          true,
        )
        else (ready, false))

abbrev pub close_connection : Component → Component
close_connection c = if c.connection.sock == 0 then c else record c { connection = no_connection }

-- `died` is what the framework's `stopThread` returns; `false` as a result stands for StopError. Each
-- processor's thread, if there is one, is joined on what its stream still answers.
unfoldable pub stop : Env → Bool → List Read → List Read → List Read → Component → Component × Bool
unfolding shutdown
stop E died floats shorts octets c =
    let told = record c {
      floatproc = shutdown c.floatproc;
      shortproc = shutdown c.shortproc;
      octetproc = shutdown c.octetproc;
      started = false;
    } in
    let joined = record told {
      floatproc = join E floats told.floatproc;
      shortproc = join E shorts told.shortproc;
      octetproc = join E octets told.octetproc;
    } in
    if died then (close_connection joined, true) else (told, false)

-- `releaseObject` stops the component, whatever `stop` throws.
unfoldable pub release_object :
    Env → Bool → List Read → List Read → List Read → Component → Component
unfolding stop
release_object E died floats shorts octets c = (stop E died floats shorts octets c).0

abbrev push_all : String → Component → Component
push_all port c = record c {
  shortproc = push_sri_to (some port) c.shortproc;
  floatproc = push_sri_to (some port) c.floatproc;
  octetproc = push_sri_to (some port) c.octetproc;
}

-- The loop over the connections, each an id and the port at its other end.
unfoldable pub push_to_connections : String → List (String × String) → Component → Component
push_to_connections connection_id [] c = c
push_to_connections connection_id ((id, port) ∷ rest) c =
    push_to_connections connection_id rest (if str_eq connection_id id then push_all port c else c)

unfoldable pub new_connection_made : String → List (String × String) → Component → Component
unfolding push_to_connections
new_connection_made connection_id connections c =
    if c.started then push_to_connections connection_id connections c else c

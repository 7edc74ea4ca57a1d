-- ===== src/Tests/Descriptors.antt =====
-- The theorems on the sockets that are open.
use sink_sdds.Base.{◌≡◌, ◌≢◌, refl, true, false, none, [], ◌∷◌, arith, codes, same_text}
use sink_sdds.Packet.Bytes.{htons}
use sink_sdds.Processor.Lifecycle.{Uninitialized}
use sink_sdds.Sockets.{Os, thrown, any_match, multicast_server, unicast_server}
use sink_sdds.Sockets.Resources.{Resources, multicast_server_in, unicast_server_in, left}
use sink_sdds.Sockets.Resources.Left.{servers-left}
use sink_sdds.Component.{Component, create, no_connection}
use sink_sdds.Component.Session.{
  start, stop, open_server, is_multicast, vlan_interface, set_network_settings_struct,
}
use sink_sdds.Component.Session.Descriptors.{
  start_in, stop_in, nothing_open, owned, Course, created, sets, starts,
}
use sink_sdds.Component.Session.Descriptors.Owned.{Course-owned}
use sink_sdds.Component.Session.Descriptors.Leaks.{start-leaks, gives_up-leaks}
use sink_sdds.Tests.Samples.{env, os, header, now, sri, connection, stream_b, network, component}

servers-left_example :
    let m = multicast_server os (codes "eth0") (codes "224.1.1.1") 29495 in
    let u = unicast_server os (codes "eth0") (codes "224.1.1.1") 29495 in
    (multicast_server_in os (codes "eth0") (codes "224.1.1.1") 29495 nothing_open
      ≡ (m, left os m nothing_open))
    × (unicast_server_in os (codes "eth0") (codes "224.1.1.1") 29495 nothing_open
        ≡ (u, left os u nothing_open))
servers-left_example = servers-left os (codes "eth0") (codes "224.1.1.1") 29495 nothing_open

abbrev memory : Uninitialized
memory = record {
  template = header;
  current_time = now;
  connection = connection;
  stream = stream_b;
  sri = sri;
}

abbrev constructed : Component
constructed = set_network_settings_struct network (create env memory memory memory)

abbrev running : Component
running = (start env os [] constructed).0

opens : open_server os constructed.network_settings ≢ thrown
unfolding create set_network_settings_struct open_server is_multicast vlan_interface any_match
    same_text multicast_server
opens e = cc

abbrev course : Course env running (start_in os constructed nothing_open)
course = starts os [] (sets network (created memory memory memory)) opens (omega arith)

Course-owned_example :
    start_in os constructed nothing_open ≡ owned running.started running.connection
Course-owned_example = Course-owned env running (start_in os constructed nothing_open) course

-- A system on which the devices cannot be listed.
abbrev no_list : Os
no_list = record os { devices = none }

start-leaks_example :
    let d = (start env no_list [] component).0 in
    (d.started ≡ false)
    × (d.connection ≡ no_connection)
    × ((start_in no_list component nothing_open).sockets ≡ 5 ∷ [])
    × ((stop_in true d (start_in no_list component nothing_open)).sockets ≡ 5 ∷ [])
unfolding open_server is_multicast vlan_interface any_match same_text multicast_server
start-leaks_example = start-leaks env no_list [] component nothing_open refl refl refl refl

-- A started component whose service thread does not end.
abbrev started : Component
started = record component { started = true }

abbrev busy : Resources
busy = record { sockets = 9 ∷ []; buffers = 0 }

gives_up-leaks_example :
    let d = (stop env false [] [] [] started).0 in
    ((start env os [] d).0.connection ≡ record { sock = 5; address = 0x010101E0; port = 14195 })
    × ((start_in os d (stop_in false started busy)).sockets ≡ 5 ∷ 9 ∷ [])
unfolding open_server is_multicast vlan_interface any_match same_text multicast_server htons
gives_up-leaks_example =
    gives_up-leaks env os [] [] [] [] started busy
      (record { sock = 5; address = 0x010101E0; port = 14195 }) refl refl refl

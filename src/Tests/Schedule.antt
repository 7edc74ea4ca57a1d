-- ===== src/Tests/Schedule.antt =====
-- A schedule of the component in which a datagram is sent, and the theorems on everything that is reached.
use sink_sdds.Base.{◌≡◌, refl, same_text, [], ◌∷◌, arith}
use sink_sdds.Packet.Layout.{FitsLayout}
use sink_sdds.Packet.Wire.{encode}
use sink_sdds.Packet.Decode.{decode, decode-encode}
use sink_sdds.Base.{◌++◌}
use sink_sdds.Processor.Types.{octet, testing, reading, Processor}
use sink_sdds.Processor.Loop.{body, begin}
use sink_sdds.Processor.Lifecycle.{
  Uninitialized, create, run, set_connection, set_attach_settings, set_override_header_settings,
  set_sdds_settings, set_stream,
}
use sink_sdds.Processor.Calls.{call_attach}
use sink_sdds.Processor.Moves.{begins, enters, reads}
use sink_sdds.Component.{stream_is_active, new_stream, with_proc}
use sink_sdds.Component.Session.{
  setup_socket, open_server, is_multicast, vlan_interface, configure, connect_and_run,
  set_network_settings_struct,
}
use sink_sdds.Sockets.{any_match, multicast_server}
use sink_sdds.System.{
  System, run_octet, run_short, octet_first, Reach, here, next, arrives, sets_network, starts, runs,
  moves, initial, configured,
}
use sink_sdds.System.Everywhere.{Everywhere}
use sink_sdds.Processor.Invariant.Control.{Sound}
use sink_sdds.Processor.Datagrams.{FitsWire}
use sink_sdds.System.Sound.{AllSound, Reach-AllSound}
use sink_sdds.System.Widths.{Reach-FitsWire}
use sink_sdds.Tests.Samples.{
  env, os, header, now, sri, connection, stream_a, stream_b, read, network,
}

abbrev memory : Uninitialized
memory = record {
  template = header;
  current_time = now;
  connection = connection;
  stream = stream_b;
  sri = sri;
}

header-FitsLayout : FitsLayout header
header-FitsLayout = ground arith

abbrev made : System
made = initial env memory memory memory

abbrev set : System
set = record made { component = set_network_settings_struct network made.component }

abbrev holding : System
holding = record set { component = new_stream env [] octet stream_a set.component }

abbrev connected : System
connected = record holding {
  component = (setup_socket os (configured holding.component)).0;
  control = run_octet;
}

abbrev launched : System
launched = record connected {
  component =
      with_proc octet (connect_and_run env [] connected.component connected.component.octetproc)
        connected.component;
  control = run_short;
}

abbrev with_octet : Processor → System
with_octet p = record launched { component = with_proc octet p launched.component }

abbrev running : Processor
running = begin launched.component.octetproc

abbrev blocked : Processor
blocked = record running { thread = reading }

abbrev sent : System
sent = with_octet (body env read (record blocked { thread = testing }))

schedule : Reach env made sent
unfolding initial create set_network_settings_struct new_stream stream_is_active setup_socket
    open_server is_multicast vlan_interface any_match same_text multicast_server configure
    connect_and_run body begin run set_connection set_attach_settings set_override_header_settings
    set_sdds_settings set_stream call_attach
schedule =
    let a : Reach env made set = next here (sets_network network refl) in
    let b : Reach env made holding = next a (arrives octet [] stream_a refl) in
    let c : Reach env made connected = next b (starts os refl refl refl refl) in
    let d : Reach env made launched = next c (runs octet run_short [] octet_first refl) in
    let e : Reach env made (with_octet running) =
      next d (moves octet running (begins refl refl) refl) in
    let f : Reach env made (with_octet blocked) =
      next e (moves octet blocked (enters refl refl refl) refl) in
    next f (moves octet _ (reads read refl refl) refl)

Reach-FitsWire_example : Everywhere (Sound FitsWire) sent.component
Reach-FitsWire_example =
    Reach-FitsWire env memory memory memory sent header-FitsLayout header-FitsLayout
      header-FitsLayout schedule

Reach-AllSound_example : AllSound sent.component
Reach-AllSound_example = Reach-AllSound env memory memory memory sent schedule

decode-encode_example : decode (encode header ++ (7 ∷ [])) ≡ header
decode-encode_example = decode-encode header (7 ∷ []) header-FitsLayout

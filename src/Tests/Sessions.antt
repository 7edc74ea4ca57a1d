-- ===== src/Tests/Sessions.antt =====
-- The theorems on starting, stopping, and opening sockets.
use sink_sdds.Base.{◌%◌, ◌≡◌, ◌⊎◌, refl, true, false, not, ◌&&◌, [], ltb, codes, same_text, arith}
use sink_sdds.Packet.Bytes.{htonl}
use sink_sdds.Processor.Types.{null, Processor}
use sink_sdds.Processor.Lifecycle.{run}
use sink_sdds.Sockets.{multicast_server}
use sink_sdds.Sockets.Multicast.{Returns, Destination, multicast_server-Destination}
use sink_sdds.Component.Session.{is_multicast, start, stop}
use sink_sdds.Component.Session.Opening.{attempt, handed}
use sink_sdds.Component.Session.Routing.{ConvertsAddress, is_multicast_lem}
use sink_sdds.Component.Session.Lifetime.{is_alive, stop_lem, start_lem}
use sink_sdds.Tests.Samples.{env, component, busy, os}

stop_lem_example :
    let d = (stop env true [] [] [] busy).0 in
    (d.started ≡ false)
    × (d.floatproc.thread ≡ null)
    × (d.shortproc.thread ≡ null)
    × (d.octetproc.thread ≡ null)
    × (d.connection.sock ≡ 0)
    × (d.floatproc.shutdown_flag ≡ not (is_alive busy.floatproc.thread))
    × (d.shortproc.shutdown_flag ≡ not (is_alive busy.shortproc.thread))
    × (d.octetproc.shutdown_flag ≡ not (is_alive busy.octetproc.thread))
stop_lem_example = stop_lem env [] [] [] busy

start_lem_example :
    let (connection, goes_on) = attempt os component.network_settings in
    let launched : Processor → Processor = λ p. run env [] (record (handed component p) {
      connection = connection;
      vlan = component.network_settings.vlan;
    }) in
    ((component.started ≡ true) × (start env os [] component ≡ (component, true)))
    ⊎ ((component.started ≡ false)
        × (goes_on ≡ true)
        × (start env os [] component ≡ (
          record component {
            started = true;
            connection = connection;
            floatproc = launched component.floatproc;
            shortproc = launched component.shortproc;
            octetproc = launched component.octetproc;
          },
          true,
        )))
    ⊎ ((component.started ≡ false)
        × (goes_on ≡ false)
        × (start env os [] component ≡ (
          record component {
            connection = connection;
            floatproc = handed component component.floatproc;
            shortproc = handed component component.shortproc;
            octetproc = handed component component.octetproc;
          },
          false,
        )))
start_lem_example = start_lem env os [] component

converted : ConvertsAddress os (codes "224.1.1.1") 0xE0010101
unfolding same_text htonl
converted = record {
  low = refl;
  high = refl;
  host_order = refl;
  network_order = refl;
  range = omega arith;
}

is_multicast_lem_example :
    is_multicast os (codes "224.1.1.1") ≡ (ltb 0xE0000000 0xE0010101 && ltb (0xE0010101 % 256) 240)
is_multicast_lem_example =
    is_multicast_lem os (codes "224.1.1.1") 0xE0010101 converted (omega arith)

multicast_server-Destination_example :
    Returns
      (Destination os (codes "eth0") (codes "224.1.1.1") 29495)
      (multicast_server os (codes "eth0") (codes "224.1.1.1") 29495)
multicast_server-Destination_example =
    multicast_server-Destination os (codes "eth0") (codes "224.1.1.1") 29495

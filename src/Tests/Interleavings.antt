-- ===== src/Tests/Interleavings.antt =====
-- The theorems on the steps of a thread and of the whole component.
use sink_sdds.Base.{◌≤◌, ◌≡◌, ◌≢◌, refl, arith, true, same_text, [], ◌∷◌}
use sink_sdds.Processor.Types.{octet, short, float, null, streams_done}
use sink_sdds.Processor.Lifecycle.{Uninitialized}
use sink_sdds.Component.{stream_is_active, new_stream}
use sink_sdds.Component.Decks.{IsSingle, active_count}
use sink_sdds.Component.Session.{setup_socket, open_server, is_multicast, vlan_interface}
use sink_sdds.Sockets.{any_match, multicast_server}
use sink_sdds.System.{System, at_rest, Reach, here, next, arrives, initial}
use sink_sdds.System.Attended.{IsAttended, Reach-IsAttended}
use sink_sdds.System.Single.{Reach-IsSingle}
use sink_sdds.System.Races.{callback-doubles}
use sink_sdds.System.Starving.{start-starves}
use sink_sdds.Tests.Samples.{
  env, os, header, now, sri, connection, stream_a, stream_b, idle, component,
}

abbrev memory : Uninitialized
memory = record {
  template = header;
  current_time = now;
  connection = connection;
  stream = stream_b;
  sri = sri;
}

-- A constructed component, an octet stream, and a short stream that has to wait.
abbrev constructed : System
constructed = initial env memory memory memory

abbrev one_stream : System
one_stream = record constructed {
  component = new_stream env [] octet stream_a constructed.component;
}

abbrev two_streams : System
two_streams = record one_stream {
  component = new_stream env [] short stream_b one_stream.component;
}

abbrev two_arrivals : Reach env constructed two_streams
two_arrivals = next (next here (arrives octet [] stream_a refl)) (arrives short [] stream_b refl)

Reach-IsAttended_example : IsAttended two_streams
Reach-IsAttended_example = Reach-IsAttended env memory memory memory two_streams two_arrivals

Reach-IsSingle_example : IsSingle two_streams.component
Reach-IsSingle_example =
    Reach-IsSingle env memory memory memory two_streams two_arrivals ((tt, tt), tt)

-- A short stream has ended, and its callback is still to come.
abbrev ending : System
ending = record {
  component = record component {
    shortproc = record (idle short) { calls = streams_done "A" ∷ [] };
  };
  control = at_rest;
  handled = 0;
}

callback-doubles_example : (t : System) × Reach env ending t × (2 ≤ active_count t.component)
unfolding stream_is_active
callback-doubles_example =
    callback-doubles env [] octet float stream_a stream_b ending apart (omega arith) refl refl refl
  where
    apart : octet ≢ float
    apart e = cc

abbrev resting : System
resting = record { component = component; control = at_rest; handled = 0 }

start-starves_example :
    (t : System) × Reach env resting t
    × (t.control ≡ at_rest)
    × (t.component.started ≡ true)
    × (t.component.octetproc.active_stream ≡ true)
    × (t.component.octetproc.stream ≡ stream_a)
    × (t.component.octetproc.thread ≡ null)
unfolding stream_is_active setup_socket open_server is_multicast vlan_interface any_match same_text
    multicast_server
start-starves_example = start-starves env [] os stream_a resting refl refl refl refl refl

-- ===== src/System/Widths.antt =====
-- Over every interleaving: the widths of the header fields, and the bytes of the datagrams.
use sink_sdds.Processor.Types.{octet, short, float, Env}
use sink_sdds.Processor.Lifecycle.{Uninitialized}
use sink_sdds.Packet.Layout.{FitsLayout}
use sink_sdds.Processor.Datagrams.{FitsWire, FitsWire-IsInvariant, create-FitsWire}
use sink_sdds.Processor.Invariant.Control.{Sound}
use sink_sdds.System.{System, Reach, initial}
use sink_sdds.System.Everywhere.{Everywhere, Reach-Everywhere}

-- From a component that has just been constructed in any memory whose header fields have the widths of
-- their declaration, over every interleaving of its steps and for each of the three processors:
-- `m_running` is true exactly while its thread is in the loop of `_run`; the fields of the header template
-- have these widths; and every datagram handed to the socket since the construction is 1080 bytes long,
-- each below 256, the header read back from its first 56 bytes, each field at the place of its
-- declaration, is the header that was sent, and the rest is the payload and its zeros.
pub Reach-FitsWire :
    (E : Env) (f x o : Uninitialized) (s : System)
    → FitsLayout f.template
    → FitsLayout x.template
    → FitsLayout o.template
    → Reach E (initial E f x o) s
    → Everywhere (Sound FitsWire) s.component
Reach-FitsWire E f x o s hf hx ho r =
    Reach-Everywhere (FitsWire-IsInvariant E) f x o s (create-FitsWire E float f hf)
      (create-FitsWire E short x hx) (create-FitsWire E octet o ho) r

-- ===== src/System/Sound.antt =====
-- Over every interleaving: the flag `m_running` of each processor, and the numbers of its datagrams.
use sink_sdds.Processor.Types.{octet, short, float, Env}
use sink_sdds.Processor.Lifecycle.{Uninitialized}
use sink_sdds.Processor.Numbered.{IsNumbered, IsNumbered-IsInvariant, create-IsNumbered}
use sink_sdds.Processor.Invariant.Control.{Sound}
use sink_sdds.Component.{Component}
use sink_sdds.System.{System, Reach, initial}
use sink_sdds.System.Everywhere.{Everywhere, Reach-Everywhere}

-- What holds of each of the three processors.
abbrev pub AllSound : Component → Type 0
AllSound = Everywhere (Sound IsNumbered)

-- From a component that has just been constructed, over every interleaving of its steps and for each
-- of the three processors: `m_running` is true exactly while its thread is in the loop of `_run`; and
-- the datagrams handed to the socket since the construction, through all streams, failures, stops and
-- starts, have the numbers 0, 1 and so on, modulo 2 ^ 16, without those of parity packets and
-- without a gap, and the next number follows them.
pub Reach-AllSound :
    (E : Env) (f x o : Uninitialized) (s : System)
    → Reach E (initial E f x o) s
    → AllSound s.component
Reach-AllSound E f x o s r =
    Reach-Everywhere (IsNumbered-IsInvariant E) f x o s (create-IsNumbered E float f)
      (create-IsNumbered E short x) (create-IsNumbered E octet o) r

-- ===== src/Processor/Send/Stamp.antt =====
-- The header of a packet as `sendPacket` prepares it.
use sink_sdds.Base.{ℕ, ◌≡◌, not, ◌&&◌, ◌==◌, if◌then◌else◌, arith}
use sink_sdds.Packet.Header.{Header, get_seq, get_sdds_time}
use sink_sdds.Packet.Time.{SddsTime}
use sink_sdds.Processor.Types.{Processor}
use sink_sdds.Processor.Send.{reset_sos}

pub reset_sos-sos :
    (p : Processor)
    → (reset_sos p).sos ≡ (if not p.first_run && (p.seq == 0) then 0 else p.template.sos)
unfolding reset_sos
reset_sos-sos p = ground arith

-- The header carries this number, time and flag.
abbrev Carries : ℕ → SddsTime → ℕ → Header → Type 0
Carries seq t sos h = (get_seq h ≡ seq) × (get_sdds_time h ≡ t) × (h.sos ≡ sos)

-- ===== src/Tests/Packets.antt =====
-- The packet's theorems.
use sink_sdds.Base.{◌+◌, ◌-◌, ◌%◌, ◌^◌, ◌≡◌, not, ◌==◌, take, drop, arith}
use sink_sdds.Packet.Time.{SddsTime, IsSddsTime, add, sub, fractions, fractions-add-sub}
use sink_sdds.Packet.Header.{
  set_seq, set_msdel, set_sdds_time, set_msptr, clear_msptr, set_msv, set_ttv, set_sscv,
}
use sink_sdds.Packet.Flags.{view, setters_view}
use sink_sdds.Packet.Wire.{encode, be_bytes, encode-setters}
use sink_sdds.Tests.Samples.{header}

abbrev early : SddsTime
early = record { ps250 = 7; pf250 = 1 }

abbrev late : SddsTime
late = record { ps250 = 2 ^ 64 - 1; pf250 = 2 ^ 32 - 1 }

fractions-add-sub_example :
    (fractions (add early late) ≡ (fractions early + fractions late) % 2 ^ 96)
    × (fractions (sub early late) ≡ (fractions early + 2 ^ 96 - fractions late) % 2 ^ 96)
    × IsSddsTime (add early late)
    × IsSddsTime (sub early late)
fractions-add-sub_example =
    fractions-add-sub early late (omega arith, omega arith) (omega arith, omega arith)

setters_view_example :
    (view (set_msv 0 header) ≡ record (view header) { msv = not (0 == 0) })
    × (view (set_ttv 0 header) ≡ record (view header) { ttv = not (0 == 0) })
    × (view (set_sscv 0 header) ≡ record (view header) { sscv = not (0 == 0) })
    × (view (set_msptr 0 header) ≡ record (view header) { spare = 0; pointer = 0 % 2048 })
    × (view (clear_msptr header) ≡ record (view header) { spare = 0; pointer = 0 })
setters_view_example = setters_view header (omega arith) 0

encode-setters_example :
    (take 2 (drop 2 (encode (set_seq 0x0102 header))) ≡ be_bytes 2 0x0102)
    × (take 2 (drop 6 (encode (set_msdel 3 header))) ≡ be_bytes 2 3)
    × (take 8 (drop 8 (encode (set_sdds_time early header))) ≡ be_bytes 8 early.ps250)
    × (take 4 (drop 16 (encode (set_sdds_time early header))) ≡ be_bytes 4 early.pf250)
encode-setters_example = encode-setters header 0x0102 3 early (omega arith) (omega arith)

-- ===== src/Tests/Processing.antt =====
-- The theorems on the header template, the reads and the sending.
use sink_sdds.Base.{
  ℕ, ◌+◌, ◌*◌, ◌/◌, ◌%◌, ◌^◌, ◌≡◌, ◌≢◌, refl, true, not, some, List, [], ◌∷◌, ◌==◌, if◌then◌else◌,
  drop, length, replicate, length-replicate, arith,
}
use sink_sdds.Packet.Bytes.{htons, htonl, swap8}
use sink_sdds.Packet.Flags.{view}
use sink_sdds.Processor.Types.{short, sizeof, Sri, long}
use sink_sdds.Processor.Template.{initialize_sdds_header, override_sdds_header}
use sink_sdds.Processor.Template.Fields.{initialize_sdds_header_lem, override_sdds_header_lem}
use sink_sdds.Processor.Calls.{annotate}
use sink_sdds.Processor.Calls.Annotation.{annotate_lem}
use sink_sdds.Processor.Keywords.{lookup}
use sink_sdds.Processor.Reading.{get_data_pointer}
use sink_sdds.Processor.Reading.ByteOrder.{network, get_data_pointer_bytes}
use sink_sdds.Processor.Send.{send_packet}
use sink_sdds.Processor.Send.Numbering.{after_packets, after_packets_lem}
use sink_sdds.Processor.Send.Delivery.{Delivers, send_packet-Delivers}
use sink_sdds.Tests.Samples.{whole, env, header, override, sri, block, read, holding}

abbrev buffer : List ℕ
buffer = replicate 1025 7

send_packet-Delivers_example :
    Delivers buffer 1025 (holding short) (send_packet env buffer 1025 (holding short))
send_packet-Delivers_example =
    send_packet-Delivers env (λ _ _ _. refl) buffer 1025 (holding short) (omega arith)
      (omega (arith, length-replicate {A = ℕ} 1025 7))

after_packets_lem_example :
    (after_packets 31 0 ≡ (31 / 31 * 32 + 31 % 31) % 2 ^ 16)
    × (after_packets 31 0 % 32 ≢ 31)
    × (after_packets (31 + 63488) 0 ≡ after_packets 31 0)
    × (after_packets (31 + 1) 0 ≢ after_packets 31 0)
after_packets_lem_example = after_packets_lem 31 1 (omega arith) (omega arith)

initialize_sdds_header_lem_example :
    let k = initialize_sdds_header whole short header in
    (view k ≡ record (view header) { sscv = true })
    × (record k { msptr = header.msptr } ≡ record header {
      dmode = if sizeof short == 4 then 0 else sizeof short;
      pp = 0;
      dfdt = htonl (whole.to_i32 (whole.mul (whole.lit 1073741824 0) (whole.lit 0 0)));
      ssd = 0 ∷ 0 ∷ [];
      aad = 0 ∷ drop 1 header.aad;
    })
initialize_sdds_header_lem_example =
    initialize_sdds_header_lem whole short header (omega arith) refl (omega arith)

override_sdds_header_lem_example :
    let k = override_sdds_header whole override header in
    (view k ≡ record {
      msv = not (override.msv == 0);
      ttv = not (override.ttv == 0);
      sscv = not (override.sscv == 0);
      spare = 0;
      pointer = override.msptr % 2048;
    })
    × (record k { msptr = header.msptr } ≡ record header {
      dmode = override.dmode % 8;
      bps = override.bps % 32;
      cx = override.cx % 2;
      msdel = htons override.msdel;
      freq = swap8 (whole.to_u64 (whole.mul override.frequency (whole.lit 73786976294838211 6)));
      dfdt = htonl (whole.to_i32 (whole.mul (whole.lit 1073741824 0) override.dfdt));
    })
override_sdds_header_lem_example = override_sdds_header_lem whole override header (omega arith) refl

abbrev tagged : Sri
tagged = record sri { keywords = record { id = "DATA_REF_STR"; value = long 43981 } ∷ [] }

get_data_pointer_bytes_example :
    let d = get_data_pointer read (holding short) in
    (d.bytes ≡ network short block.elements) × (length d.bytes ≡ d.bytes_read)
get_data_pointer_bytes_example =
    get_data_pointer_bytes read (holding short) block refl (omega arith, (omega arith, tt))

annotate_lem_example : lookup "DATA_REF_STR" (annotate (holding short)).keywords ≡ some (long 52651)
annotate_lem_example = annotate_lem (holding short) "DATA_REF_STR"

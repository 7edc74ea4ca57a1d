-- ===== src/Processor/Send.antt =====
-- `sendPacket` of cpp/BulkIOToSDDSProcessor.cpp. The method calls itself with what is left, so the
-- model recurs on fuel, one more than there are bytes.
pub mod Fuel
pub mod Numbering
pub mod Delivery
pub mod Stamp
pub mod Marks
pub mod Padding
use sink_sdds.Base.{
  ℕ, zero, suc, ◌+◌, ◌-◌, ◌%◌, ◌^◌, Bool, true, false, not, ◌&&◌, List, [], ◌∷◌, ◌++◌,
  if◌then◌else◌, ◌==◌, leb, take, drop,
}
use sink_sdds.Packet.Header.{Header, set_seq}
use sink_sdds.Processor.Types.{Env, Message, send, Processor}
use sink_sdds.Processor.Template.{set_sdds_timestamp}
use sink_sdds.Processor.Reading.{sdds_data_size}

-- The number after `seq`: one past it, and over the number of the parity packet that is not sent.
unfoldable pub next_seq : ℕ → ℕ
next_seq seq =
    let next = (seq + 1) % 2 ^ 16 in
    if not (next == 0) && next % 32 == 31 then (next + 1) % 2 ^ 16 else next

-- The start of sequence flag is cleared when the numbers have rolled over.
unfoldable pub reset_sos : Processor → Header
reset_sos p =
    if not p.first_run && (p.seq == 0) && not (p.template.sos == 0)
    then record p.template { sos = 0 }
    else p.template

-- The template and the sequence number as they stand when the datagram is sent.
unfoldable pub prepare : Env → Processor → Processor
unfolding next_seq reset_sos
prepare E p =
    set_sdds_timestamp E (record p { template = set_seq p.seq (reset_sos p); seq = next_seq p.seq })

-- The payload's length in a packet, of `num_bytes` left.
abbrev pub chunk : ℕ → ℕ
chunk num_bytes = if leb sdds_data_size num_bytes then sdds_data_size else num_bytes

abbrev pub message : List ℕ → ℕ → Processor → Message
message bytes num_bytes p = record {
  header = p.template;
  payload = take (chunk num_bytes) bytes;
  padding = sdds_data_size - chunk num_bytes;
}

abbrev pub record_send : Env → Message → Processor → Processor
record_send E m p = record p {
  calls = p.calls ++ send p.connection.sock m (E.sendmsg p.calls p.connection.sock m) ∷ [];
}

-- `false` stands for the negative result of `sendmsg`, `true` for 0.
unfoldable pub send_fuel : Env → ℕ → List ℕ → ℕ → Processor → Processor × Bool
unfolding prepare
send_fuel E zero bytes num_bytes p = (p, false)
send_fuel E (suc fuel) bytes num_bytes p =
    let ready = prepare E p in
    let m = message bytes num_bytes ready in
    let sent = record_send E m ready in
    let rest = send_fuel E fuel (drop sdds_data_size bytes) (num_bytes - chunk num_bytes) sent in
    if num_bytes == 0
    then (p, true)
    else (if E.sendmsg ready.calls ready.connection.sock m then rest else (sent, false))

unfoldable pub send_packet : Env → List ℕ → ℕ → Processor → Processor × Bool
unfolding send_fuel
send_packet E bytes num_bytes p = send_fuel E (suc num_bytes) bytes num_bytes p

-- ===== src/Processor/Send/Delivery.antt =====
-- What `sendPacket` puts on the wire when the socket accepts every datagram.
use sink_sdds.Base.{
  ℕ, zero, suc, ◌+◌, ◌-◌, ◌/◌, ◌^◌, ◌≤◌, ◌<◌, ◌≡◌, ◌≢◌, refl, sym, ap, ◌∙◌, Bool, true, false, List,
  [], ◌∷◌, ◌++◌, map, append-nil, append_assoc, inl, inr, arith, if◌then◌else◌, ◌==◌, ==_iff, leb,
  Bool-cases, length, take, drop, length-take, length-drop, take-add,
}
use sink_sdds.Packet.Bytes.{htons, htons-htons}
use sink_sdds.Packet.Header.{get_seq, set_seq, set_sdds_time, set_ttv}
use sink_sdds.Processor.Types.{Env, Message, Call, send, Processor}
use sink_sdds.Processor.Template.{set_sdds_timestamp}
use sink_sdds.Processor.Reading.{sdds_data_size}
use sink_sdds.Processor.Send.{
  next_seq, prepare, chunk, message, record_send, send_fuel, send_packet,
}
use sink_sdds.Processor.Send.Numbering.{after_packets, numbers, next_seq-lt, after_packets-suc}

abbrev pub payloads : List Message → List ℕ
payloads [] = []
payloads (m ∷ ms) = m.payload ++ payloads ms

-- The payload and the zeros of each datagram fill the data part of an SDDS packet.
abbrev pub AllFull : List Message → Type 0
AllFull [] = Unit
AllFull (m ∷ ms) = (length m.payload + m.padding ≡ sdds_data_size) × AllFull ms

-- Only the last datagram may be padded.
abbrev pub PaddedLast : List Message → Type 0
PaddedLast [] = Unit
PaddedLast (m ∷ []) = Unit
PaddedLast (m ∷ n ∷ ms) = (m.padding ≡ 0) × PaddedLast (n ∷ ms)

abbrev pub accepted : ℕ → List Message → List Call
accepted sock = map λ m. send sock m true

abbrev pub seq_of : Message → ℕ
seq_of m = get_seq m.header

-- `result` is a call of `sendPacket` that returned 0 after it sent `n` bytes, from processor `p`.
pub record Delivers (bytes : List ℕ) (n : ℕ) (p : Processor) (result : Processor × Bool)
    : Type 0 where
  pub messages : List Message
  pub success : result.1 ≡ true
  pub calls_made : result.0.calls ≡ p.calls ++ accepted p.connection.sock messages
  pub whole : payloads messages ≡ take n bytes
  pub full : AllFull messages
  pub padded_last : PaddedLast messages
  pub count : length messages ≡ (n + 1023) / 1024
  pub in_order : map seq_of messages ≡ numbers (length messages) p.seq
  pub next : result.0.seq ≡ after_packets (length messages) p.seq

padding-zero : (n k : ℕ) → k ≡ (n - chunk n + 1023) / 1024 → 0 < k → sdds_data_size - chunk n ≡ 0
padding-zero n k e h = ground arith

pub count-suc : (n k : ℕ) → 0 < n → k ≡ (n - chunk n + 1023) / 1024 → suc k ≡ (n + 1023) / 1024
count-suc n k h e = ground arith

pub left-lt : (n fuel : ℕ) → n ≢ 0 → n < suc fuel → n - chunk n < fuel
left-lt n fuel h l = ground arith

left-sub : (n l : ℕ) → n ≤ l → n - chunk n ≤ l - sdds_data_size
left-sub n l h = ground arith

pub left-le :
    (bytes : List ℕ) (n : ℕ) → n ≤ length bytes → n - chunk n ≤ length (drop sdds_data_size bytes)
left-le bytes n h = rw (length-drop sdds_data_size bytes) (left-sub n (length bytes) h)

pub full_chunk :
    (bytes : List ℕ) (n : ℕ)
    → n ≤ length bytes
    → length (take (chunk n) bytes) + (sdds_data_size - chunk n) ≡ sdds_data_size
full_chunk bytes n h = ground (arith, length-take (chunk n) bytes)

-- The first chunk and what is left of `n` bytes.
take-chunk :
    (bytes : List ℕ) (n : ℕ)
    → take (chunk n) bytes ++ take (n - chunk n) (drop sdds_data_size bytes) ≡ take n bytes
take-chunk bytes n = elim (Bool-cases (leb sdds_data_size n)) [
  | inl e ↦
      let whole : sdds_data_size + (n - sdds_data_size) ≡ n = ground arith in
      rw e (
        sym (take-add sdds_data_size (n - sdds_data_size) bytes)
        ∙ ap (λ (k : ℕ). take k bytes) whole)
  | inr e ↦ let none_left : n - n ≡ 0 = omega arith in rw (e, none_left, append-nil)
]

PaddedLast-cons :
    (m : Message) (ms : List Message)
    → (0 < length ms → m.padding ≡ 0)
    → PaddedLast ms
    → PaddedLast (m ∷ ms)
PaddedLast-cons m [] h t = tt
PaddedLast-cons m (n ∷ ms) h t = (h (omega arith), t)

nothing_sent : (bytes : List ℕ) (n : ℕ) (p : Processor) → n ≡ 0 → Delivers bytes n p (p, true)
unfolding numbers after_packets
nothing_sent bytes n p e = record {
  messages = [];
  success = refl;
  calls_made = rw append-nil;
  whole = rw e;
  full = tt;
  padded_last = tt;
  count = omega arith;
  in_order = refl;
  next = refl;
}

module _ (E : Env) where
  -- Numbering and time stamp leave the rest as it was.
  pub prepare-seq :
      (p : Processor)
      → ((prepare E p).seq ≡ next_seq p.seq)
        × ((prepare E p).template.seq ≡ htons p.seq)
        × ((prepare E p).calls ≡ p.calls)
        × ((prepare E p).connection ≡ p.connection)
  unfolding prepare set_sdds_timestamp set_seq set_sdds_time set_ttv
  prepare-seq p = ground arith

  pub seq_of-prepare :
      (bytes : List ℕ) (n : ℕ) (p : Processor)
      → p.seq < 2 ^ 16
      → seq_of (message bytes n (prepare E p)) ≡ p.seq
  unfolding get_seq
  seq_of-prepare bytes n p h = rw (prepare-seq p).1 (htons-htons p.seq h)

  pub no_bytes :
      (fuel : ℕ) (bytes : List ℕ) (n : ℕ) (p : Processor)
      → (n == 0) ≡ true
      → send_fuel E (suc fuel) bytes n p ≡ (p, true)
  unfolding send_fuel
  no_bytes fuel bytes n p e = rw e

  module _
      (accepts : (calls : List Call) (sock : ℕ) (m : Message) → E.sendmsg calls sock m ≡ true) where
    first_packet :
        (bytes : List ℕ) (n : ℕ) (p : Processor) (rest : Processor × Bool)
        → p.seq < 2 ^ 16
        → 0 < n
        → n ≤ length bytes
        → let ready = prepare E p in
          Delivers
            (drop sdds_data_size bytes)
            (n - chunk n)
            (record_send E (message bytes n ready) ready)
            rest
          → Delivers bytes n p rest
    unfolding numbers after_packets
    first_packet bytes n p rest hs hn hb d = record {
      messages = m ∷ d.messages;
      success = d.success;
      calls_made = d.calls_made ∙ rw (accepts, append_assoc, (prepare-seq p).2, (prepare-seq p).3);
      whole = rw d.whole (take-chunk bytes n);
      full = (full_chunk bytes n hb, d.full);
      padded_last =
          PaddedLast-cons m d.messages (padding-zero n (length d.messages) d.count) d.padded_last;
      count = count-suc n (length d.messages) hn d.count;
      in_order = rw (seq_of-prepare bytes n p hs, d.in_order, (prepare-seq p).0);
      next = d.next ∙ rw ((prepare-seq p).0, after_packets-suc (length d.messages) p.seq);
    }
      where
        m : Message
        m = message bytes n (prepare E p)

    pub send_fuel-suc :
        (fuel : ℕ) (bytes : List ℕ) (n : ℕ) (p : Processor)
        → (n == 0) ≡ false
        → let ready = prepare E p in
          send_fuel E (suc fuel) bytes n p
          ≡ send_fuel E fuel
              (drop sdds_data_size bytes)
              (n - chunk n)
              (record_send E (message bytes n ready) ready)
    unfolding send_fuel
    send_fuel-suc fuel bytes n p e =
        let ready = prepare E p in
        let m = message bytes n ready in
        let sent = record_send E m ready in
        rw e (
          ap
            (λ (b : Bool).
              if b
              then send_fuel E fuel (drop sdds_data_size bytes) (n - chunk n) sent
              else (sent, false))
            (accepts ready.calls ready.connection.sock m))

    send_fuel-Delivers :
        (fuel : ℕ) (bytes : List ℕ) (n : ℕ) (p : Processor)
        → n < fuel
        → p.seq < 2 ^ 16
        → n ≤ length bytes
        → Delivers bytes n p (send_fuel E fuel bytes n p)
    send_fuel-Delivers zero bytes n p hf hs hb = absurd (omega arith)
    send_fuel-Delivers (suc fuel) bytes n p hf hs hb = elim (Bool-cases (n == 0)) [
      | inl e ↦ rw (no_bytes fuel bytes n p e) (nothing_sent bytes n p ((==_iff n 0).0 e))
      | inr e ↦ rw (send_fuel-suc fuel bytes n p e) (
          first_packet bytes n p _ hs (ground arith) hb (
            send_fuel-Delivers fuel (drop sdds_data_size bytes) (n - chunk n)
              (record_send E (message bytes n (prepare E p)) (prepare E p))
              (left-lt n fuel (ground arith) hf) (rw (prepare-seq p).0 (next_seq-lt p.seq))
              (left-le bytes n hb)))
    ]

    -- If the socket accepts every datagram, `sendPacket` on `n` bytes of a buffer returns 0 after it
    -- has sent one datagram for every 1024 bytes or part of them. Together their payloads are the
    -- `n` bytes in order; each is filled up to 1024 bytes, and only the last one with any zeros; their
    -- sequence numbers follow one another from `m_seq`, which is left at the next number.
    pub send_packet-Delivers :
        (bytes : List ℕ) (n : ℕ) (p : Processor)
        → p.seq < 2 ^ 16
        → n ≤ length bytes
        → Delivers bytes n p (send_packet E bytes n p)
    unfolding send_packet
    send_packet-Delivers bytes n p hs hb = send_fuel-Delivers (suc n) bytes n p (omega arith) hs hb

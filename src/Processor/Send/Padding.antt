-- ===== src/Processor/Send/Padding.antt =====
-- The data parts of the packets that `sendPacket` of cpp/BulkIOToSDDSProcessor.cpp sends: payloads with
-- their zeros.
use sink_sdds.Base.{
  ℕ, zero, suc, ◌+◌, ◌-◌, ◌*◌, ◌/◌, ◌<◌, ◌≡◌, ◌≢◌, refl, sym, ap, ap₂, ◌∙◌, true, List, [], ◌∷◌,
  ◌++◌, append-nil, append_assoc, inl, inr, arith, ◌==◌, leb, Bool-cases, take, drop, take-add,
  replicate,
}
use sink_sdds.Processor.Types.{
  Env, Message, Call, attach, detach, push_sri, send, streams_done, Processor,
}
use sink_sdds.Processor.Reading.{sdds_data_size}
use sink_sdds.Processor.Send.{prepare, chunk, message, record_send, send_fuel, send_packet}
use sink_sdds.Processor.Send.Delivery.{prepare-seq, send_fuel-suc, no_bytes, left-lt}

abbrev pub data_part : Message → List ℕ
data_part m = m.payload ++ replicate m.padding 0

-- The data parts, in the order of the calls of `sendmsg`.
abbrev pub sent_data : List Call → List ℕ
sent_data [] = []
sent_data (send s m b ∷ cs) = data_part m ++ sent_data cs
sent_data (_ ∷ cs) = sent_data cs

pub sent_data-append : (cs ds : List Call) → sent_data (cs ++ ds) ≡ sent_data cs ++ sent_data ds
sent_data-append [] ds = refl
sent_data-append (attach t d u ∷ cs) ds = sent_data-append cs ds
sent_data-append (detach s ∷ cs) ds = sent_data-append cs ds
sent_data-append (push_sri t s c ∷ cs) ds = sent_data-append cs ds
sent_data-append (send s m b ∷ cs) ds =
    ap (λ (bs : List ℕ). data_part m ++ bs) (sent_data-append cs ds)
    ∙ sym (append_assoc (data_part m) (sent_data cs) (sent_data ds))
sent_data-append (streams_done s ∷ cs) ds = sent_data-append cs ds

-- `n` bytes, filled up with zeros to a multiple of the size of a data part.
abbrev pub padded : ℕ → List ℕ → List ℕ
padded n bytes = take n bytes ++ replicate ((n + 1023) / 1024 * 1024 - n) 0

-- The first packet and those after it.
padded-chunk :
    (bytes : List ℕ) (n : ℕ)
    → 0 < n
    → (take (chunk n) bytes ++ replicate (sdds_data_size - chunk n) 0)
        ++ padded (n - chunk n) (drop sdds_data_size bytes)
      ≡ padded n bytes
padded-chunk bytes n pos = elim (Bool-cases (leb sdds_data_size n)) [
  | inl e ↦
      let left : ℕ = n - sdds_data_size in
      let whole : sdds_data_size + left ≡ n = ground arith in
      let zeros : (left + 1023) / 1024 * 1024 - left ≡ (n + 1023) / 1024 * 1024 - n =
        ground arith in
      rw (e, append-nil)
        (sym (append_assoc (take sdds_data_size bytes) (take left (drop sdds_data_size bytes)) _)
          ∙ ap₂ (λ (xs : List ℕ) (k : ℕ). xs ++ replicate k 0)
              (sym (take-add sdds_data_size left bytes) ∙ ap (λ (k : ℕ). take k bytes) whole) zeros)
  | inr e ↦
      let none_left : n - n ≡ 0 = omega arith in
      let zeros : sdds_data_size - n ≡ (n + 1023) / 1024 * 1024 - n = ground arith in
      rw (e, none_left)
        (append-nil (take n bytes ++ replicate (sdds_data_size - n) 0)
          ∙ ap (λ (k : ℕ). take n bytes ++ replicate k 0) zeros)
]

module _ (E : Env)
    (accepts : (calls : List Call) (sock : ℕ) (m : Message) → E.sendmsg calls sock m ≡ true) where
  send_fuel-data :
      (fuel : ℕ) (bytes : List ℕ) (n : ℕ) (p : Processor)
      → n < fuel
      → sent_data (send_fuel E fuel bytes n p).0.calls ≡ sent_data p.calls ++ padded n bytes
  send_fuel-data zero bytes n p h = absurd (omega arith)
  send_fuel-data (suc fuel) bytes n p h = elim (Bool-cases (n == 0)) [
    | inl e ↦
        let nothing : n ≡ 0 = ground (arith, e) in
        rw (no_bytes E fuel bytes n p e, nothing) (sym (append-nil (sent_data p.calls)))
    | inr e ↦
        let some_bytes : 0 < n = ground (arith, e) in
        let real : n ≢ 0 = omega (arith, some_bytes) in
        let ready : Processor = prepare E p in
        let m : Message = message bytes n ready in
        let sent : Processor = record_send E m ready in
        let more : sent_data sent.calls ≡ sent_data p.calls ++ data_part m =
          sent_data-append ready.calls _
          ∙ (ap (λ (xs : List ℕ). sent_data ready.calls ++ xs) (append-nil (data_part m))
              ∙ ap (λ (cs : List Call). sent_data cs ++ data_part m) (prepare-seq E p).2) in
        rw (send_fuel-suc E accepts fuel bytes n p e) (
          send_fuel-data fuel (drop sdds_data_size bytes) (n - chunk n) sent (left-lt n fuel real h)
          ∙ (ap (λ (xs : List ℕ). xs ++ padded (n - chunk n) (drop sdds_data_size bytes)) more
              ∙ (append_assoc (sent_data p.calls) (data_part m) _
                  ∙ ap (λ (xs : List ℕ). sent_data p.calls ++ xs)
                      (padded-chunk bytes n some_bytes))))
  ]

  pub send_packet-data :
      (bytes : List ℕ) (n : ℕ) (p : Processor)
      → sent_data (send_packet E bytes n p).0.calls ≡ sent_data p.calls ++ padded n bytes
  unfolding send_packet
  send_packet-data bytes n p = send_fuel-data (suc n) bytes n p (omega arith)

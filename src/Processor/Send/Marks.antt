-- ===== src/Processor/Send/Marks.antt =====
-- The start of sequence flag in the headers of the packets that `sendPacket` of
-- cpp/BulkIOToSDDSProcessor.cpp sends.
use sink_sdds.Base.{
  ℕ, zero, suc, ◌+◌, ◌-◌, ◌/◌, ◌<◌, ◌≡◌, ◌≢◌, subst, refl, sym, ap, ap₂, ◌∙◌, Bool, true, not, ◌&&◌,
  List, [], ◌∷◌, ◌++◌, append-nil, append_assoc, inl, inr, arith, if◌then◌else◌, ◌==◌, Bool-cases,
  drop, replicate, if_both,
}
use sink_sdds.Packet.Header.{Header, set_seq, set_sdds_time, set_ttv}
use sink_sdds.Processor.Types.{
  Env, Message, Call, attach, detach, push_sri, send, streams_done, Processor,
}
use sink_sdds.Processor.Template.{set_sdds_timestamp}
use sink_sdds.Processor.Reading.{sdds_data_size}
use sink_sdds.Processor.Send.{
  next_seq, prepare, chunk, message, record_send, send_fuel, send_packet,
}
use sink_sdds.Processor.Send.Numbering.{after_packets, numbers, after_packets-suc}
use sink_sdds.Processor.Send.Stamp.{reset_sos-sos}
use sink_sdds.Processor.Send.Delivery.{prepare-seq, send_fuel-suc, no_bytes, count-suc, left-lt}

-- The flags of the packets, in the order of the calls of `sendmsg`.
abbrev pub sent_marks : List Call → List ℕ
sent_marks [] = []
sent_marks (send s m b ∷ cs) = m.header.sos ∷ sent_marks cs
sent_marks (_ ∷ cs) = sent_marks cs

pub sent_marks-append : (cs ds : List Call) → sent_marks (cs ++ ds) ≡ sent_marks cs ++ sent_marks ds
sent_marks-append [] ds = refl
sent_marks-append (attach t d u ∷ cs) ds = sent_marks-append cs ds
sent_marks-append (detach s ∷ cs) ds = sent_marks-append cs ds
sent_marks-append (push_sri t s c ∷ cs) ds = sent_marks-append cs ds
sent_marks-append (send s m b ∷ cs) ds =
    ap (λ (ms : List ℕ). m.header.sos ∷ ms) (sent_marks-append cs ds)
sent_marks-append (streams_done s ∷ cs) ds = sent_marks-append cs ds

-- The flag of the packet with a number, if it was `sos` before: it is cleared at 0, but not in the first run.
abbrev pub mark : Bool → ℕ → ℕ → ℕ
mark first sos seq = if not first && (seq == 0) then 0 else sos

-- The flags of packets with these numbers, and the flag after them.
abbrev pub marks : Bool → ℕ → List ℕ → List ℕ
marks first sos [] = []
marks first sos (n ∷ ns) = mark first sos n ∷ marks first (mark first sos n) ns

abbrev pub mark_after : Bool → ℕ → List ℕ → ℕ
mark_after first sos [] = sos
mark_after first sos (n ∷ ns) = mark_after first (mark first sos n) ns

marks-append :
    (first : Bool) (sos : ℕ) (ns ms : List ℕ)
    → marks first sos (ns ++ ms) ≡ marks first sos ns ++ marks first (mark_after first sos ns) ms
marks-append first sos [] ms = refl
marks-append first sos (n ∷ ns) ms =
    ap (λ (xs : List ℕ). mark first sos n ∷ xs) (marks-append first (mark first sos n) ns ms)

numbers-add : (j k seq : ℕ) → numbers (j + k) seq ≡ numbers j seq ++ numbers k (after_packets j seq)
unfolding numbers after_packets
numbers-add zero k seq = ap (λ (n : ℕ). numbers n seq) (omega arith)
numbers-add (suc j) k seq =
    let more : suc j + k ≡ suc (j + k) = omega arith in
    rw more (
      ap (λ (ns : List ℕ). seq ∷ ns)
        (numbers-add j k (next_seq seq)
          ∙ ap (λ (n : ℕ). numbers j (next_seq seq) ++ numbers k n) (after_packets-suc j seq)))

-- In the first run no flag is cleared.
pub marks-first :
    (k seq : ℕ)
    → (marks true 1 (numbers k seq) ≡ replicate k 1) × (mark_after true 1 (numbers k seq) ≡ 1)
unfolding numbers
marks-first zero seq = (refl, refl)
marks-first (suc k) seq =
    let rest = marks-first k (next_seq seq) in (ap (λ (xs : List ℕ). 1 ∷ xs) rest.0, rest.1)

-- The flags of two runs of numbers, one after the other.
pub marks-numbers :
    (first : Bool) (sos k j seq : ℕ) (xs : List ℕ)
    → (xs ++ marks first sos (numbers k seq))
        ++ marks first (mark_after first sos (numbers k seq)) (numbers j (after_packets k seq))
      ≡ xs ++ marks first sos (numbers (k + j) seq)
marks-numbers first sos k j seq xs =
    let later = numbers j (after_packets k seq) in
    append_assoc xs (marks first sos (numbers k seq)) _
    ∙ ap (λ (ys : List ℕ). xs ++ ys)
        (sym (marks-append first sos (numbers k seq) later)
          ∙ ap (marks first sos) (sym (numbers-add k j seq)))

-- `q` is `p` after packets with these numbers.
pub record Marks (ns : List ℕ) (p q : Processor) : Type 0 where
  pub sent : sent_marks q.calls ≡ sent_marks p.calls ++ marks p.first_run p.template.sos ns
  pub sos : q.template.sos ≡ mark_after p.first_run p.template.sos ns

module _ (E : Env) where
  prepare-sos : (p : Processor) → (prepare E p).template.sos ≡ mark p.first_run p.template.sos p.seq
  unfolding prepare set_sdds_timestamp set_sdds_time set_ttv set_seq
  prepare-sos p =
      if_both (λ (h : Header). h.sos ≡ mark p.first_run p.template.sos p.seq) p.override.enabled _ _
        (reset_sos-sos p)
        (if_both (λ (h : Header). h.sos ≡ mark p.first_run p.template.sos p.seq) (_ == 0) _ _
          (reset_sos-sos p) (reset_sos-sos p))

  prepare-first_run : (p : Processor) → (prepare E p).first_run ≡ p.first_run
  unfolding prepare set_sdds_timestamp
  prepare-first_run p = refl

  Marks-nil : (p : Processor) → Marks [] p p
  Marks-nil p = record { sent = sym (append-nil (sent_marks p.calls)); sos = refl }

  -- One packet, and those after it.
  Marks-cons :
      (bytes : List ℕ) (n : ℕ) (ns : List ℕ) (p q : Processor)
      → Marks ns (record_send E (message bytes n (prepare E p)) (prepare E p)) q
      → Marks (p.seq ∷ ns) p q
  Marks-cons bytes n ns p q v =
      let ready : Processor = prepare E p in
      let m : Message = message bytes n ready in
      let more : sent_marks (record_send E m ready).calls
          ≡ sent_marks p.calls ++ mark p.first_run p.template.sos p.seq ∷ [] =
        sent_marks-append ready.calls _
        ∙ ap₂ (λ (cs : List Call) (x : ℕ). sent_marks cs ++ x ∷ []) (prepare-seq E p).2
            (prepare-sos p) in
      record {
        sent =
            v.sent
            ∙ (rw (more, prepare-first_run p, prepare-sos p)
                (append_assoc (sent_marks p.calls) (mark p.first_run p.template.sos p.seq ∷ []) _));
        sos = v.sos ∙ rw (prepare-first_run p, prepare-sos p) refl;
      }

  module _
      (accepts : (calls : List Call) (sock : ℕ) (m : Message) → E.sendmsg calls sock m ≡ true) where
    send_fuel-Marks :
        (fuel : ℕ) (bytes : List ℕ) (n : ℕ) (p : Processor)
        → n < fuel
        → Marks (numbers ((n + 1023) / 1024) p.seq) p (send_fuel E fuel bytes n p).0
    unfolding numbers
    send_fuel-Marks zero bytes n p h = absurd (omega arith)
    send_fuel-Marks (suc fuel) bytes n p h = elim (Bool-cases (n == 0)) [
      | inl e ↦
          let none_left : (n + 1023) / 1024 ≡ 0 = ground (arith, e) in
          rw (no_bytes E fuel bytes n p e, none_left) (Marks-nil p)
      | inr e ↦
          let some_bytes : 0 < n = ground (arith, e) in
          let real : n ≢ 0 = omega (arith, some_bytes) in
          let sent : Processor = record_send E (message bytes n (prepare E p)) (prepare E p) in
          let count : suc ((n - chunk n + 1023) / 1024) ≡ (n + 1023) / 1024 =
            count-suc n ((n - chunk n + 1023) / 1024) some_bytes refl in
          let rest : Marks (numbers ((n - chunk n + 1023) / 1024) sent.seq) sent
              (send_fuel E fuel (drop sdds_data_size bytes) (n - chunk n) sent).0 =
            send_fuel-Marks fuel (drop sdds_data_size bytes) (n - chunk n) sent
              (left-lt n fuel real h) in
          rw (send_fuel-suc E accepts fuel bytes n p e) (
            subst
              (λ (k : ℕ).
                Marks (numbers k p.seq) p
                  (send_fuel E fuel (drop sdds_data_size bytes) (n - chunk n) sent).0)
              count
              (Marks-cons bytes n _ p _ (
                subst
                  (λ (seq : ℕ).
                    Marks (numbers ((n - chunk n + 1023) / 1024) seq) sent
                      (send_fuel E fuel (drop sdds_data_size bytes) (n - chunk n) sent).0)
                  (prepare-seq E p).0 rest)))
    ]

    pub send_packet-Marks :
        (bytes : List ℕ) (n : ℕ) (p : Processor)
        → Marks (numbers ((n + 1023) / 1024) p.seq) p (send_packet E bytes n p).0
    unfolding send_packet
    send_packet-Marks bytes n p = send_fuel-Marks (suc n) bytes n p (omega arith)

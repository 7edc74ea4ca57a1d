-- ===== src/Processor/Loop/Transfer/Marking.antt =====
-- The start of sequence flag over a run of the thread in cpp/BulkIOToSDDSProcessor.cpp.
use sink_sdds.Base.{
  ℕ, ◌^◌, ◌<◌, ◌≡◌, ◌||◌, refl, sym, subst, ap, ap₂, ◌∙◌, Bool, true, false, List, [], ◌∷◌, ◌++◌,
  map, append-nil, append_assoc, none, if_split, arith, if◌then◌else◌, if_both, replicate,
}
use sink_sdds.Packet.Header.{Header, set_freq}
use sink_sdds.Processor.Types.{Native, Env, Message, Call, Block, Stream, Processor}
use sink_sdds.Processor.Template.{set_sdds_header_from_sri}
use sink_sdds.Processor.Reading.{Data, get_data_pointer}
use sink_sdds.Processor.Send.{send_packet}
use sink_sdds.Processor.Send.Numbering.{after_packets, numbers}
use sink_sdds.Processor.Send.Delivery.{send_packet-Delivers}
use sink_sdds.Processor.Send.Marks.{
  sent_marks, sent_marks-append, marks, mark_after, send_packet-Marks, marks-first, marks-numbers,
}
use sink_sdds.Processor.Reading.ByteOrder.{get_data_pointer_bytes}
use sink_sdds.Processor.Calls.{push_sri_to}
use sink_sdds.Processor.Loop.{update_sri, interrupt, body, loop, begin, end_run, run_thread}
use sink_sdds.Processor.Loop.Ending.{loop-next}
use sink_sdds.Processor.Loop.Transfer.Blocks.{
  feed, last, packets, IsData, AllData, all_packets, update_sri-Announces, body-sent,
  body-Transfers,
}
use sink_sdds.Processor.Loop.Transfer.Streaming.{last-IsClosed}

-- The flag that the packets of a block begin with.
abbrev initial_mark : Processor → ℕ
initial_mark p = if p.first_run then 1 else p.template.sos

module _ (E : Env) where
  -- Before the first packet of a block is sent.
  abbrev IsMarked : Processor → Processor → Type 0
  IsMarked p q =
      (sent_marks q.calls ≡ sent_marks p.calls)
      × (q.first_run ≡ p.first_run)
      × (q.template.sos ≡ initial_mark p)

  push_sri_to-marks :
      (p : Processor)
      → (sent_marks (push_sri_to none p).calls ≡ sent_marks p.calls)
        × ((push_sri_to none p).first_run ≡ p.first_run)
        × ((push_sri_to none p).template ≡ p.template)
  unfolding push_sri_to
  push_sri_to-marks p =
      if_both
        (λ (q : Processor).
          (sent_marks q.calls ≡ sent_marks p.calls)
          × (q.first_run ≡ p.first_run)
          × (q.template ≡ p.template))
        p.active_stream _ p
        (sent_marks-append p.calls _ ∙ append-nil (sent_marks p.calls), refl, refl)
        (refl, refl, refl)

  set_sdds_header_from_sri-sos :
      (p : Processor) → (set_sdds_header_from_sri E.floats p).template.sos ≡ initial_mark p
  unfolding set_sdds_header_from_sri set_freq
  set_sdds_header_from_sri-sos p = ground arith

  unchanged :
      (first changed : Bool) (sos : ℕ)
      → (first || changed) ≡ false
      → sos ≡ (if first then 1 else sos)
  unchanged first changed sos h = ground arith

  update_sri-IsMarked :
      (s : Stream) (b : Block) (p : Processor)
      → IsMarked p (interrupt false (update_sri E (get_data_pointer (feed s b) p)))
  unfolding update_sri get_data_pointer set_sdds_header_from_sri
  update_sri-IsMarked s b p =
      let found : Processor = (get_data_pointer (feed s b) p).after in
      let (kept, run, template) = push_sri_to-marks found in
      if_split (λ (q : Processor). IsMarked p (interrupt false q)) (p.first_run || b.sri_changed) _
        found
        (λ _. (
          kept,
          run,
          set_sdds_header_from_sri-sos (push_sri_to none found)
              ∙ ap₂ (λ (first : Bool) (h : Header). if first then 1 else h.sos) run template,
        ))
        (λ h. (refl, refl, unchanged p.first_run b.sri_changed p.template.sos h))

  -- The flags of a block, and what the next one finds.
  record Marked (k : ℕ) (p q : Processor) : Type 0 where
    sent :
        sent_marks q.calls
        ≡ sent_marks p.calls ++ marks p.first_run (initial_mark p) (numbers k p.seq)
    sos : q.template.sos ≡ mark_after p.first_run (initial_mark p) (numbers k p.seq)
    later : q.first_run ≡ false
    number : q.seq ≡ after_packets k p.seq

  module _
      (accepts : (calls : List Call) (sock : ℕ) (m : Message) → E.sendmsg calls sock m ≡ true) where
    body-Marked :
        (s : Stream) (b : Block) (p : Processor)
        → s.eos ≡ false
        → IsData p.native b
        → p.seq < 2 ^ 16
        → Marked (packets p.native b.elements) p (body E (feed s b) p)
    unfolding get_data_pointer
    body-Marked s b p going (some_elements, fit) bound =
        let d : Data = get_data_pointer (feed s b) p in
        let q : Processor = interrupt false (update_sri E d) in
        let n : ℕ = d.bytes_read in
        let r : Processor × Bool = send_packet E d.bytes n q in
        let (kept, run, sos) = update_sri-IsMarked s b p in
        let (announced, stream, number) = update_sri-Announces E d in
        let (order, len) = get_data_pointer_bytes (feed s b) p b refl (fit) in
        let marked = send_packet-Marks E accepts d.bytes n q in
        let sending =
          send_packet-Delivers E accepts d.bytes n q (rw number bound) (omega (arith, len)) in
        subst (Marked (packets p.native b.elements) p)
          (sym (body-sent E accepts s b p going (some_elements, fit) bound))
          (record {
            sent = marked.sent ∙ rw (kept, run, sos, number) refl;
            sos = marked.sos ∙ rw (run, sos, number) refl;
            later = refl;
            number = sending.next ∙ ap₂ (λ (k seq : ℕ). after_packets k seq) sending.count number;
          })

    -- The blocks after the first one.
    loop-Marked :
        (s e : Stream) (blocks : List Block) (p : Processor)
        → s.eos ≡ false
        → AllData p.native blocks
        → p.seq < 2 ^ 16
        → p.shutdown_flag ≡ false
        → p.first_run ≡ false
        → (q : Processor) × (sent_marks q.calls
            ≡ sent_marks p.calls
              ++ marks false p.template.sos (numbers (all_packets p.native blocks) p.seq))
          × (q.active_stream ≡ p.active_stream)
          × (q.shutdown_flag ≡ false)
          × (loop E (map (feed s) blocks ++ last e ∷ []) p ≡ loop E (last e ∷ []) q)
    unfolding numbers
    loop-Marked s e [] p going fits bound clear later =
        (p, sym (append-nil (sent_marks p.calls)), refl, clear, refl)
    loop-Marked s e (b ∷ blocks) p going (one, fits) bound clear later =
        let m : Processor = body E (feed s b) p in
        let k : ℕ = packets p.native b.elements in
        let (t, next_bound) = body-Transfers E accepts s b p going one bound in
        let v = body-Marked s b p going one bound in
        let (q, sent, active, flag, ended) =
          loop-Marked s e blocks m going
            (subst (λ (n : Native). AllData n blocks) (sym t.native) fits) next_bound
            (t.flag ∙ clear) v.later in
        let begun : initial_mark p ≡ p.template.sos =
          ap (λ (x : Bool). if x then 1 else p.template.sos) later in
        (
          q,
          sent
              ∙ (rw (v.sent, v.sos, v.number, t.native, begun, later)
                  (marks-numbers false p.template.sos k (all_packets p.native blocks) p.seq
                    (sent_marks p.calls))),
          active ∙ t.active,
          flag,
          loop-next E (feed s b) (map (feed s) blocks ++ last e ∷ []) p clear ∙ ended,
        )

    -- A thread is started for the first run on an active stream, was not told to shut down, and the
    -- socket accepts every datagram. If the stream yields these blocks, each of at least one value and all
    -- of the native type, and then ends, the start of sequence flag is 1 in the packets of the first
    -- block and in the packets of the others up to the next one that has the number 0; in that
    -- packet and all after it the flag is 0. The numbers go on from those of the streams before.
    pub run_thread-marks :
        (s e : Stream) (b : Block) (blocks : List Block) (p : Processor)
        → s.eos ≡ false
        → e.eos ≡ true
        → AllData p.native (b ∷ blocks)
        → p.seq < 2 ^ 16
        → p.shutdown_flag ≡ false
        → p.active_stream ≡ true
        → p.first_run ≡ true
        → let k = packets p.native b.elements in
          sent_marks (run_thread E (map (feed s) (b ∷ blocks) ++ last e ∷ []) p).calls
          ≡ sent_marks p.calls
            ++ (replicate k 1
                ++ marks false 1 (numbers (all_packets p.native blocks) (after_packets k p.seq)))
    unfolding run_thread begin
    run_thread-marks s e b blocks p going eos (one, fits) bound clear held first =
        let started : Processor = begin p in
        let m : Processor = body E (feed s b) started in
        let k : ℕ = packets p.native b.elements in
        let (t, next_bound) = body-Transfers E accepts s b started going one bound in
        let v = body-Marked s b started going one bound in
        let (q, sent, active, flag, ended) =
          loop-Marked s e blocks m going
            (subst (λ (n : Native). AllData n blocks) (sym t.native) fits) next_bound
            (t.flag ∙ clear) v.later in
        let closed = last-IsClosed E e q eos flag (active ∙ (t.active ∙ held)) in
        let unmarked : sent_marks (end_run (loop E (last e ∷ []) q)).calls ≡ sent_marks q.calls =
          ap sent_marks closed.ending.1
          ∙ (sent_marks-append q.calls _ ∙ append-nil (sent_marks q.calls)) in
        let over : run_thread E (map (feed s) (b ∷ blocks) ++ last e ∷ []) p
            ≡ end_run (loop E (last e ∷ []) q) =
          ap end_run
            (loop-next E (feed s b) (map (feed s) blocks ++ last e ∷ []) started clear ∙ ended) in
        let begun : initial_mark started ≡ 1 =
          ap (λ (x : Bool). if x then 1 else p.template.sos) first in
        let (ones, still) = marks-first k p.seq in
        ap (λ (x : Processor). sent_marks x.calls) over
        ∙ (unmarked
            ∙ (sent
                ∙ rw (v.sent, v.sos, v.number, t.native, begun, first, ones, still)
                    (append_assoc (sent_marks p.calls) (replicate k 1) _)))

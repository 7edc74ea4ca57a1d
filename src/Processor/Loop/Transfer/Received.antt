-- ===== src/Processor/Loop/Transfer/Received.antt =====
-- What a receiver gets from the datagrams of a run of the thread in cpp/BulkIOToSDDSProcessor.cpp, against
-- the blocks that the run reads.
use sink_sdds.Base.{
  ℕ, ◌+◌, ◌-◌, ◌*◌, ◌/◌, ◌^◌, ◌<◌, ◌≡◌, refl, sym, subst, ap, ap₂, ◌∙◌, true, false, none, List, [],
  ◌∷◌, ◌++◌, map, append-nil, append_assoc, arith, if_both, length, replicate, drop, take-all,
}
use sink_sdds.Settings.{SddsSettings}
use sink_sdds.Processor.Types.{
  Native, sizeof, Env, Message, Call, attach, detach, push_sri, send, streams_done, Block, Stream,
  Processor,
}
use sink_sdds.Processor.Template.{set_sdds_header_from_sri}
use sink_sdds.Processor.Reading.{Data, get_data_pointer}
use sink_sdds.Processor.Reading.ByteOrder.{get_data_pointer_bytes}
use sink_sdds.Processor.Send.Padding.{sent_data, sent_data-append, send_packet-data}
use sink_sdds.Processor.Calls.{push_sri_to}
use sink_sdds.Processor.Loop.{update_sri, interrupt, body, loop, begin, end_run, run_thread}
use sink_sdds.Processor.Loop.Ending.{loop-next}
use sink_sdds.Processor.Loop.Transfer.Blocks.{
  feed, last, packets, wire, IsData, AllData, body-sent, body-Transfers,
}
use sink_sdds.Processor.Loop.Transfer.Streaming.{last-IsClosed}
use sink_sdds.Processor.Datagrams.{datagram, AllDatagrams, FitsWire, FitsWire-IsInvariant}
use sink_sdds.Processor.Invariant.Control.{run_thread-keeps}

-- What follows the 56 bytes of the header in each datagram, one after the other.
abbrev pub received : List Call → List ℕ
received [] = []
received (send s m b ∷ cs) = drop 56 (datagram m) ++ received cs
received (_ ∷ cs) = received cs

received-sent_data : (cs : List Call) → AllDatagrams cs → received cs ≡ sent_data cs
received-sent_data [] h = refl
received-sent_data (attach t d u ∷ cs) h = received-sent_data cs h
received-sent_data (detach s ∷ cs) h = received-sent_data cs h
received-sent_data (push_sri t s c ∷ cs) h = received-sent_data cs h
received-sent_data (send s m b ∷ cs) h = ap₂ (◌++◌) h.0.rest (received-sent_data cs h.1)
received-sent_data (streams_done s ∷ cs) h = received-sent_data cs h

-- The bytes of a block on the wire, and zeros up to a multiple of 1024.
abbrev pub filled : Native → SddsSettings → List ℕ → List ℕ
filled native settings es =
    wire native settings es ++ replicate (packets native es * 1024 - length es * sizeof native) 0

abbrev pub all_filled : Native → SddsSettings → List Block → List ℕ
all_filled native settings [] = []
all_filled native settings (b ∷ blocks) =
    filled native settings b.elements ++ all_filled native settings blocks

module _ (E : Env) where
  push_sri_to-data : (p : Processor) → sent_data (push_sri_to none p).calls ≡ sent_data p.calls
  unfolding push_sri_to
  push_sri_to-data p =
      if_both (λ (q : Processor). sent_data q.calls ≡ sent_data p.calls) p.active_stream _ p
        (sent_data-append p.calls _ ∙ append-nil (sent_data p.calls)) refl

  update_sri-data : (d : Data) → sent_data (update_sri E d).calls ≡ sent_data d.after.calls
  unfolding update_sri set_sdds_header_from_sri
  update_sri-data d =
      if_both (λ (q : Processor). sent_data q.calls ≡ sent_data d.after.calls) d.sri_changed _
        d.after (push_sri_to-data d.after) refl

  module _
      (accepts : (calls : List Call) (sock : ℕ) (m : Message) → E.sendmsg calls sock m ≡ true) where
    body-data :
        (s : Stream) (b : Block) (p : Processor)
        → s.eos ≡ false
        → IsData p.native b
        → p.seq < 2 ^ 16
        → sent_data (body E (feed s b) p).calls
          ≡ sent_data p.calls ++ filled p.native p.user_settings b.elements
    unfolding get_data_pointer
    body-data s b p going (some_elements, fit) bound =
        let d : Data = get_data_pointer (feed s b) p in
        let q : Processor = interrupt false (update_sri E d) in
        let n : ℕ = d.bytes_read in
        let (order, len) = get_data_pointer_bytes (feed s b) p b refl fit in
        ap (λ (x : Processor). sent_data x.calls)
          (body-sent E accepts s b p going (some_elements, fit) bound)
        ∙ (send_packet-data E accepts d.bytes n q
            ∙ ap₂ (λ (xs ys : List ℕ). xs ++ (ys ++ replicate ((n + 1023) / 1024 * 1024 - n) 0))
                (update_sri-data d) (take-all n d.bytes (omega (arith, len)) ∙ order))

    loop-data :
        (s e : Stream) (blocks : List Block) (p : Processor)
        → s.eos ≡ false
        → AllData p.native blocks
        → p.seq < 2 ^ 16
        → p.shutdown_flag ≡ false
        → (q : Processor) × (sent_data q.calls
            ≡ sent_data p.calls ++ all_filled p.native p.user_settings blocks)
          × (q.active_stream ≡ p.active_stream)
          × (q.shutdown_flag ≡ false)
          × (loop E (map (feed s) blocks ++ last e ∷ []) p ≡ loop E (last e ∷ []) q)
    loop-data s e [] p going fits bound clear =
        (p, sym (append-nil (sent_data p.calls)), refl, clear, refl)
    loop-data s e (b ∷ blocks) p going (one, fits) bound clear =
        let m : Processor = body E (feed s b) p in
        let (t, next_bound) = body-Transfers E accepts s b p going one bound in
        let block_data = filled p.native p.user_settings b.elements in
        let (q, sent, active, flag, ended) =
          loop-data s e blocks m going
            (subst (λ (n : Native). AllData n blocks) (sym t.native) fits) next_bound
            (t.flag ∙ clear) in
        (
          q,
          sent
              ∙ (ap₂ (λ (xs ys : List ℕ). xs ++ ys) (body-data s b p going one bound)
                    (ap₂ (λ (n : Native) (o : SddsSettings). all_filled n o blocks) t.native
                      t.settings)
                  ∙ append_assoc (sent_data p.calls) block_data _),
          active ∙ t.active,
          flag,
          loop-next E (feed s b) (map (feed s) blocks ++ last e ∷ []) p clear ∙ ended,
        )

    -- A thread that was not told to shut down is started on an active stream of a processor whose header
    -- template has its widths and whose datagrams so far are whole, and the socket accepts every
    -- datagram. If the stream yields these blocks, each of at least one value and all of the native
    -- type, and then ends, a receiver that takes away the first 56 bytes of each datagram is left with
    -- what it had and the bytes of all blocks in order, in the byte order that the user asked for, each
    -- block filled up with zeros to a multiple of 1024 bytes.
    pub run_thread-received :
        (s e : Stream) (blocks : List Block) (p : Processor)
        → s.eos ≡ false
        → e.eos ≡ true
        → AllData p.native blocks
        → p.seq < 2 ^ 16
        → p.shutdown_flag ≡ false
        → p.active_stream ≡ true
        → FitsWire p
        → received (run_thread E (map (feed s) blocks ++ last e ∷ []) p).calls
          ≡ received p.calls ++ all_filled p.native p.user_settings blocks
    unfolding run_thread begin
    run_thread-received s e blocks p going eos fits bound clear held wired =
        let reads = map (feed s) blocks ++ last e ∷ [] in
        let (q, sent, active, flag, ended) =
          loop-data s e blocks (begin p) going fits bound clear in
        let closed = last-IsClosed E e q eos flag (active ∙ held) in
        let after : FitsWire (run_thread E reads p) =
          run_thread-keeps (FitsWire-IsInvariant E) reads p wired in
        received-sent_data (run_thread E reads p).calls after.sent
        ∙ (ap (λ (x : Processor). sent_data (end_run x).calls) ended
            ∙ (ap sent_data closed.ending.1
                ∙ (sent_data-append q.calls _
                    ∙ (append-nil (sent_data q.calls)
                        ∙ (sent
                            ∙ ap (λ (xs : List ℕ). xs ++ all_filled p.native p.user_settings blocks)
                                (sym (received-sent_data p.calls wired.sent)))))))

-- ===== src/Processor/Loop/Transfer/Protocol.antt =====
-- The order of the calls that leave a processor of cpp/BulkIOToSDDSProcessor.cpp.
use mathlib.Core.List.{map-append}
use sink_sdds.Base.{
  ℕ, ◌^◌, ◌<◌, ◌≡◌, ◌||◌, refl, sym, subst, ap, ◌∙◌, Bool, true, false, none, List, [], ◌∷◌, ◌++◌,
  map, append-nil, append_assoc, arith, if◌then◌else◌, if_split, length, replicate,
}
use sink_sdds.Processor.Types.{Native, Env, Message, Call, Block, Stream, Processor}
use sink_sdds.Processor.Template.{set_sdds_header_from_sri}
use sink_sdds.Processor.Reading.{Data, get_data_pointer}
use sink_sdds.Processor.Reading.ByteOrder.{get_data_pointer_bytes}
use sink_sdds.Processor.Send.Delivery.{accepted, send_packet-Delivers}
use sink_sdds.Processor.Calls.{push_sri_to, call_attach}
use sink_sdds.Processor.Loop.{update_sri, interrupt, body, loop, begin, end_run, run_thread}
use sink_sdds.Processor.Loop.Ending.{loop-next}
use sink_sdds.Processor.Lifecycle.{launch}
use sink_sdds.Processor.Loop.Transfer.Blocks.{
  feed, last, packets, IsData, AllData, update_sri-Announces, body-sent, body-Transfers,
}
use sink_sdds.Processor.Loop.Transfer.Streaming.{last-IsClosed}
use sink_sdds.Processor.Loop.Transfer.{
  Kind, attaching, describing, sending, detaching, calling_back, kind, kinds,
}

-- A block: its SRI if it is the first one or the SRI has changed, and its datagrams.
abbrev pub block_kinds : Native → Bool → Block → List Kind
block_kinds native first b =
    (if first || b.sri_changed then describing ∷ [] else [])
    ++ replicate (packets native b.elements) sending

abbrev pub blocks_kinds : Native → Bool → List Block → List Kind
blocks_kinds native first [] = []
blocks_kinds native first (b ∷ blocks) =
    block_kinds native first b ++ blocks_kinds native false blocks

kinds-accepted :
    (sock : ℕ) (ms : List Message) → kinds (accepted sock ms) ≡ replicate (length ms) sending
kinds-accepted sock [] = refl
kinds-accepted sock (m ∷ ms) = ap (λ (ks : List Kind). sending ∷ ks) (kinds-accepted sock ms)

module _ (E : Env) where
  update_sri-kinds :
      (d : Data)
      → d.after.active_stream ≡ true
      → kinds (update_sri E d).calls
        ≡ kinds d.after.calls ++ (if d.sri_changed then describing ∷ [] else [])
  unfolding update_sri set_sdds_header_from_sri push_sri_to
  update_sri-kinds d held =
      if_split
        (λ (q : Processor).
          kinds q.calls ≡ kinds d.after.calls ++ (if d.sri_changed then describing ∷ [] else []))
        d.sri_changed _ d.after (λ e. rw (e, held) (map-append kind d.after.calls _))
        (λ e. rw e (sym (append-nil (kinds d.after.calls))))

  -- What launching leaves as it was, and the one call that it makes.
  record IsAttached (p q : Processor) : Type 0 where
    native : q.native ≡ p.native
    first_run : q.first_run ≡ p.first_run
    seq : q.seq ≡ p.seq
    flag : q.shutdown_flag ≡ p.shutdown_flag
    active : q.active_stream ≡ true
    order : kinds q.calls ≡ kinds p.calls ++ attaching ∷ []

  launch-IsAttached : (p : Processor) → p.active_stream ≡ true → IsAttached p (launch E p)
  unfolding launch
  launch-IsAttached p held =
      let q : Processor = call_attach E none p in
      let attached : IsAttached p q =
        unfold call_attach in
        if_split (IsAttached p) p.active_stream _ p
          (λ _. record {
            native = refl;
            first_run = refl;
            seq = refl;
            flag = refl;
            active = held;
            order = map-append kind p.calls _;
          })
          (λ e. absurd (cc)) in
      record {
        native = attached.native;
        first_run = attached.first_run;
        seq = attached.seq;
        flag = attached.flag;
        active = attached.active;
        order = attached.order;
      }

  module _
      (accepts : (calls : List Call) (sock : ℕ) (m : Message) → E.sendmsg calls sock m ≡ true) where
    body-kinds :
        (s : Stream) (b : Block) (p : Processor)
        → s.eos ≡ false
        → IsData p.native b
        → p.seq < 2 ^ 16
        → p.active_stream ≡ true
        → (kinds (body E (feed s b) p).calls ≡ kinds p.calls ++ block_kinds p.native p.first_run b)
          × ((body E (feed s b) p).first_run ≡ false)
    unfolding get_data_pointer
    body-kinds s b p going (some_elements, fit) bound held =
        let d : Data = get_data_pointer (feed s b) p in
        let (announced, stream, number) = update_sri-Announces E d in
        let q : Processor = interrupt false (update_sri E d) in
        let (order, len) = get_data_pointer_bytes (feed s b) p b refl fit in
        let m =
          send_packet-Delivers E accepts d.bytes d.bytes_read q (rw number bound) (omega arith) in
        let one = body-sent E accepts s b p going (some_elements, fit) bound in
        (
          ap (λ (x : Processor). kinds x.calls) one
              ∙ (ap kinds m.calls_made
                  ∙ (map-append kind q.calls (accepted q.connection.sock m.messages)
                      ∙ (ap
                            (λ (ks : List Kind).
                              ks ++ kinds (accepted q.connection.sock m.messages))
                            (update_sri-kinds d held)
                          ∙ (append_assoc (kinds p.calls)
                                (if d.sri_changed then describing ∷ [] else []) _
                              ∙ ap
                                  (λ (ks : List Kind).
                                    kinds p.calls
                                    ++ ((if d.sri_changed then describing ∷ [] else []) ++ ks))
                                  (kinds-accepted q.connection.sock m.messages
                                    ∙ ap (λ (n : ℕ). replicate n sending) m.count))))),
          ap (λ (x : Processor). x.first_run) one,
        )

    loop-kinds :
        (s e : Stream) (blocks : List Block) (p : Processor)
        → s.eos ≡ false
        → AllData p.native blocks
        → p.seq < 2 ^ 16
        → p.shutdown_flag ≡ false
        → p.active_stream ≡ true
        → (q : Processor) × (kinds q.calls
            ≡ kinds p.calls ++ blocks_kinds p.native p.first_run blocks)
          × (q.shutdown_flag ≡ false)
          × (q.active_stream ≡ true)
          × (loop E (map (feed s) blocks ++ last e ∷ []) p ≡ loop E (last e ∷ []) q)
    loop-kinds s e [] p going fits bound clear held =
        (p, sym (append-nil (kinds p.calls)), clear, held, refl)
    loop-kinds s e (b ∷ blocks) p going (one, fits) bound clear held =
        let (t, next_bound) = body-Transfers E accepts s b p going one bound in
        let (order, no_first) = body-kinds s b p going one bound held in
        let m : Processor = body E (feed s b) p in
        let (q, rest, flag, active, ended) =
          loop-kinds s e blocks m going
            (subst (λ (n : Native). AllData n blocks) (sym t.native) fits) next_bound
            (t.flag ∙ clear) (t.active ∙ held) in
        (
          q,
          rest
              ∙ (ap (λ (ks : List Kind). ks ++ blocks_kinds m.native m.first_run blocks) order
                  ∙ (append_assoc (kinds p.calls) (block_kinds p.native p.first_run b) _
                      ∙ ap
                          (λ (ks : List Kind).
                            kinds p.calls ++ (block_kinds p.native p.first_run b ++ ks))
                          (ap (λ (n : Native). blocks_kinds n m.first_run blocks) t.native
                            ∙ ap (λ (f : Bool). blocks_kinds p.native f blocks) no_first))),
          flag,
          active,
          loop-next E (feed s b) (map (feed s) blocks ++ last e ∷ []) p clear ∙ ended,
        )

  -- A processor that was not told to shut down is launched on an active stream, and the socket accepts every
  -- datagram. If the stream yields these blocks, each of at least one value and all of the native type,
  -- and then ends, the calls that leave the processor are, in this order: one attach; for each block
  -- the SRI, if it has changed or the block is the first one and `m_first_run` is set, and then the
  -- block's datagrams; one detach; and the callback of the parent.
  pub run_thread-kinds :
      (accepts : (calls : List Call) (sock : ℕ) (m : Message) → E.sendmsg calls sock m ≡ true)
      (s e : Stream) (blocks : List Block) (p : Processor)
      → s.eos ≡ false
      → e.eos ≡ true
      → AllData p.native blocks
      → p.seq < 2 ^ 16
      → p.shutdown_flag ≡ false
      → p.active_stream ≡ true
      → kinds (run_thread E (map (feed s) blocks ++ last e ∷ []) (launch E p)).calls
        ≡ kinds p.calls
          ++ attaching ∷ (blocks_kinds p.native p.first_run blocks ++ detaching ∷ calling_back ∷ [])
  unfolding run_thread begin
  run_thread-kinds accepts s e blocks p going eos fits bound clear held =
      let r : Processor = launch E p in
      let at = launch-IsAttached p held in
      let (q, order, flag, active, ended) =
        loop-kinds accepts s e blocks (begin r) going
          (subst (λ (n : Native). AllData n blocks) (sym at.native) fits) (rw at.seq bound)
          (at.flag ∙ clear) at.active in
      let closed = last-IsClosed E e q eos flag active in
      let tail : List Kind = detaching ∷ calling_back ∷ [] in
      let middle : blocks_kinds r.native r.first_run blocks
          ≡ blocks_kinds p.native p.first_run blocks =
        ap (λ (n : Native). blocks_kinds n r.first_run blocks) at.native
        ∙ ap (λ (f : Bool). blocks_kinds p.native f blocks) at.first_run in
      ap (λ (x : Processor). kinds (end_run x).calls) ended
      ∙ (closed.order
          ∙ (ap (λ (ks : List Kind). ks ++ tail) order
              ∙ (append_assoc (kinds r.calls) (blocks_kinds r.native r.first_run blocks) tail
                  ∙ (ap (λ (ks : List Kind). kinds r.calls ++ (ks ++ tail)) middle
                      ∙ (ap
                            (λ (ks : List Kind).
                              ks ++ (blocks_kinds p.native p.first_run blocks ++ tail))
                            at.order
                          ∙ append_assoc (kinds p.calls) (attaching ∷ [])
                              (blocks_kinds p.native p.first_run blocks ++ tail))))))

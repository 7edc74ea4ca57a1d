-- ===== src/Processor/Loop/Transfer/Blocks.antt =====
-- The blocks that a processor of cpp/BulkIOToSDDSProcessor.cpp reads, and the bytes that one round of the loop
-- hands to the socket.
use sink_sdds.Base.{
  ℕ, zero, suc, ◌+◌, ◌*◌, ◌/◌, ◌^◌, ◌<◌, ◌≡◌, ◌||◌, refl, sym, subst, ap, ◌∙◌, Bool, true, false,
  none, some, List, [], ◌∷◌, ◌++◌, map, append-nil, arith, if◌then◌else◌, if_both, ◌==◌, length,
  take-all,
}
use sink_sdds.Settings.{SddsSettings}
use sink_sdds.Processor.Types.{
  Native, octet, short, float, sizeof, Env, Message, Call, Block, Read, Stream, Processor,
}
use sink_sdds.Processor.Template.{set_sdds_header_from_sri}
use sink_sdds.Processor.Reading.{Data, memory, get_data_pointer}
use sink_sdds.Processor.Reading.ByteOrder.{network, AllFit, get_data_pointer_bytes}
use sink_sdds.Processor.Send.{send_packet}
use sink_sdds.Processor.Send.Numbering.{after_packets, next_seq-lt}
use sink_sdds.Processor.Send.Delivery.{accepted, send_packet-Delivers}
use sink_sdds.Processor.Calls.{call_detach}
use sink_sdds.Processor.Loop.{
  shutdown, update_sri, end_of_data, after_send, dispatch, interrupt, body, loop,
}
use sink_sdds.Processor.Loop.Frame.{sends, sends-append, send_packet-IsSending}
use sink_sdds.Processor.Loop.Ending.{loop-next}
use sink_sdds.Processor.Loop.Transfer.{
  sent_bytes, sent_bytes-append, sent_bytes-accepted, sends-accepted, Transfers, Transfers-trans,
  quiet, quiet_first, Announces, push_sri_to-Announces,
}

-- One return of the read with a block, and the one with which the stream ends.
abbrev pub feed : Stream → Block → Read
feed s b = record { block = λ _. some b; stream = s; interrupted = false }

abbrev pub last : Stream → Read
last s = record { block = λ _. none; stream = s; interrupted = false }

-- The bytes of a block on the wire, and the datagrams that they take.
abbrev pub wire : Native → SddsSettings → List ℕ → List ℕ
wire native settings es =
    if settings.endian_representation == 0 then memory native es else network native es

abbrev pub packets : Native → List ℕ → ℕ
packets native es = (length es * sizeof native + 1023) / 1024

-- A block that holds something, all of it of the native type.
abbrev pub IsData : Native → Block → Type 0
IsData native b = (0 < length b.elements) × AllFit native b.elements

abbrev pub AllData : Native → List Block → Type 0
AllData native [] = Unit
AllData native (b ∷ blocks) = IsData native b × AllData native blocks

abbrev pub all_wire : Native → SddsSettings → List Block → List ℕ
all_wire native settings [] = []
all_wire native settings (b ∷ blocks) =
    wire native settings b.elements ++ all_wire native settings blocks

abbrev pub all_packets : Native → List Block → ℕ
all_packets native [] = 0
all_packets native (b ∷ blocks) = packets native b.elements + all_packets native blocks

nonzero : (native : Native) (n : ℕ) → 0 < n → (n * sizeof native == 0) ≡ false
nonzero octet n h = ground arith
nonzero short n h = ground arith
nonzero float n h = ground arith

or_false : (b : Bool) → (b || false) ≡ b
or_false true = refl
or_false false = refl

after_packets-lt : (k seq : ℕ) → seq < 2 ^ 16 → after_packets k seq < 2 ^ 16
unfolding after_packets
after_packets-lt zero seq h = h
after_packets-lt (suc k) seq h = next_seq-lt (after_packets k seq)

module _ (E : Env) where
  pub update_sri-Announces : (d : Data) → Announces d.after (update_sri E d)
  unfolding update_sri set_sdds_header_from_sri
  update_sri-Announces d =
      let (t, s, n) = push_sri_to-Announces d.after in
      if_both (Announces d.after) d.sri_changed _ d.after
        (
          quiet d.after _ t.native t.settings t.active t.flag
              (t.sent ∙ append-nil (sent_bytes d.after.calls)) (omega (arith, t.count)) t.attached,
          s,
          n,
        )
        (quiet d.after d.after refl refl refl refl refl refl refl, refl, refl)

  dispatch-sent :
      (d : Data) (p : Processor)
      → (d.bytes_read == 0) ≡ false
      → (send_packet E d.bytes d.bytes_read p).1 ≡ true
      → (send_packet E d.bytes d.bytes_read p).0.stream.eos ≡ false
      → dispatch E d p ≡ record (send_packet E d.bytes d.bytes_read p).0 { first_run = false }
  unfolding dispatch after_send
  dispatch-sent d p some_bytes success going =
      let sent : Processor × Bool = send_packet E d.bytes d.bytes_read p in
      let later : Processor = record (sent.0) { first_run = false } in
      ap
        (λ (b : Bool).
          if b then end_of_data p else (if sent.1 then after_send sent.0 else shutdown sent.0))
        some_bytes
      ∙ (ap (λ (b : Bool). if b then after_send sent.0 else shutdown sent.0) success
          ∙ ap (λ (b : Bool). if b then shutdown (call_detach later) else later) going)

  module _
      (accepts : (calls : List Call) (sock : ℕ) (m : Message) → E.sendmsg calls sock m ≡ true) where
    send_packet-Transfers :
        (bytes : List ℕ) (n : ℕ) (p : Processor)
        → p.seq < 2 ^ 16
        → length bytes ≡ n
        → let r = send_packet E bytes n p in
          Transfers bytes ((n + 1023) / 1024) p r.0 × (r.0.seq < 2 ^ 16) × (r.1 ≡ true)
    send_packet-Transfers bytes n p bound len =
        let d = send_packet-Delivers E accepts bytes n p bound (omega arith) in
        let kept = send_packet-IsSending E bytes n p in
        (
          record {
            native = kept.native;
            settings = kept.settings;
            active = kept.active;
            flag = kept.shutdown_flag;
            sent =
                ap sent_bytes d.calls_made
                ∙ (sent_bytes-append p.calls (accepted p.connection.sock d.messages)
                    ∙ ap (λ (l : List ℕ). sent_bytes p.calls ++ l)
                        (sent_bytes-accepted p.connection.sock d.messages
                          ∙ (d.whole ∙ take-all n bytes (omega arith))));
            count = omega (
              arith,
              ap sends d.calls_made,
              sends-append p.calls (accepted p.connection.sock d.messages),
              sends-accepted p.connection.sock d.messages,
              d.count,
            );
            attached = kept.no_detach;
          },
          rw d.next (after_packets-lt (length d.messages) p.seq bound),
          d.success,
        )

    -- A block is read and sent.
    pub body-sent :
        (s : Stream) (b : Block) (p : Processor)
        → s.eos ≡ false
        → IsData p.native b
        → p.seq < 2 ^ 16
        → let d = get_data_pointer (feed s b) p in
          body E (feed s b) p
          ≡ record (send_packet E d.bytes d.bytes_read (interrupt false (update_sri E d))).0 {
            first_run = false;
          }
    unfolding body get_data_pointer
    body-sent s b p going (some_elements, fit) bound =
        let d : Data = get_data_pointer (feed s b) p in
        let (announced, stream, number) = update_sri-Announces d in
        let q : Processor = interrupt false (update_sri E d) in
        let (order, len) = get_data_pointer_bytes (feed s b) p b refl fit in
        let (t, next_bound, success) =
          send_packet-Transfers d.bytes d.bytes_read q (rw number bound) len in
        let kept = send_packet-IsSending E d.bytes d.bytes_read q in
        dispatch-sent d q (nonzero p.native (length b.elements) some_elements) success
          (ap (λ (x : Stream). x.eos) (kept.stream ∙ stream) ∙ going)

    pub body-Transfers :
        (s : Stream) (b : Block) (p : Processor)
        → s.eos ≡ false
        → IsData p.native b
        → p.seq < 2 ^ 16
        → Transfers
            (wire p.native p.user_settings b.elements)
            (packets p.native b.elements)
            p
            (body E (feed s b) p)
          × ((body E (feed s b) p).seq < 2 ^ 16)
    unfolding body get_data_pointer
    body-Transfers s b p going (some_elements, fit) bound =
        let d : Data = get_data_pointer (feed s b) p in
        let (announced, stream, number) = update_sri-Announces d in
        let ready : Processor = update_sri E d in
        let q : Processor = interrupt false ready in
        let (order, len) = get_data_pointer_bytes (feed s b) p b refl fit in
        let (t, next_bound, success) =
          send_packet-Transfers d.bytes d.bytes_read q (rw number bound) len in
        let result : Processor = (send_packet E d.bytes d.bytes_read q).0 in
        let before : Transfers [] 0 p q =
          quiet_first [] 0 p d.after q (quiet p d.after refl refl refl refl refl refl refl) (
            quiet_first [] 0 d.after ready q announced
              (quiet ready q refl refl refl (or_false ready.shutdown_flag) refl refl refl)) in
        subst
          (λ (x : Processor).
            Transfers (wire p.native p.user_settings b.elements) (packets p.native b.elements) p x
            × (x.seq < 2 ^ 16))
          (sym (body-sent s b p going (some_elements, fit) bound))
          (
            subst
                (λ (bytes : List ℕ).
                  Transfers bytes (packets p.native b.elements) p
                    (record result { first_run = false }))
                order
                (quiet_first d.bytes (packets p.native b.elements) p q
                  (record result { first_run = false }) before
                  (record {
                    native = t.native;
                    settings = t.settings;
                    active = t.active;
                    flag = t.flag;
                    sent = t.sent;
                    count = t.count;
                    attached = t.attached;
                  })),
            next_bound,
          )

    -- All blocks of a stream, one after the other.
    pub loop-Transfers :
        (s e : Stream) (blocks : List Block) (p : Processor)
        → s.eos ≡ false
        → AllData p.native blocks
        → p.seq < 2 ^ 16
        → p.shutdown_flag ≡ false
        → (q : Processor) × Transfers
            (all_wire p.native p.user_settings blocks)
            (all_packets p.native blocks)
            p
            q
          × (loop E (map (feed s) blocks ++ last e ∷ []) p ≡ loop E (last e ∷ []) q)
    loop-Transfers s e [] p going fits bound clear =
        (p, quiet p p refl refl refl refl refl refl refl, refl)
    loop-Transfers s e (b ∷ blocks) p going (one, fits) bound clear =
        let (t, next_bound) = body-Transfers s b p going one bound in
        let m : Processor = body E (feed s b) p in
        let (q, u, ended) =
          loop-Transfers s e blocks m going
            (subst (λ (n : Native). AllData n blocks) (sym t.native) fits) next_bound
            (t.flag ∙ clear) in
        (
          q,
          Transfers-trans (wire p.native p.user_settings b.elements)
              (all_wire p.native p.user_settings blocks) (packets p.native b.elements)
              (all_packets p.native blocks) p m q t
              (subst
                (λ (n : Native).
                  Transfers (all_wire n p.user_settings blocks) (all_packets n blocks) m q)
                t.native
                (subst
                  (λ (o : SddsSettings).
                    Transfers (all_wire m.native o blocks) (all_packets m.native blocks) m q)
                  t.settings u)),
          loop-next E (feed s b) (map (feed s) blocks ++ last e ∷ []) p clear ∙ ended,
        )

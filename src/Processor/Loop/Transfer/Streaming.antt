-- ===== src/Processor/Loop/Transfer/Streaming.antt =====
-- What a run of the thread in cpp/BulkIOToSDDSProcessor.cpp transfers: the bytes that it hands to the socket,
-- against the blocks that it reads.
use mathlib.Core.List.{map-append}
use sink_sdds.Base.{
  String, ℕ, suc, ◌+◌, ◌^◌, ◌<◌, ◌≡◌, ◌||◌, refl, sym, subst, ap, ◌∙◌, Bool, true, false, List, [],
  ◌∷◌, ◌++◌, map, append-nil, append_assoc, arith, if◌then◌else◌, if_split,
}
use sink_sdds.Processor.Types.{Env, Message, Call, detach, streams_done, Block, Stream, Processor}
use sink_sdds.Processor.Reading.{get_data_pointer}
use sink_sdds.Processor.Calls.{call_detach}
use sink_sdds.Processor.Loop.{
  shutdown, update_sri, end_of_data, dispatch, body, loop, begin, end_run, run_thread,
}
use sink_sdds.Processor.Loop.Frame.{detaches, sends, sends-append, detaches-append}
use sink_sdds.Processor.Loop.Ending.{loop-stopped, loop-next}
use sink_sdds.Processor.Loop.Transfer.{
  Kind, kind, kinds, detaching, calling_back, sent_bytes, sent_bytes-append,
}
use sink_sdds.Processor.Loop.Transfer.Blocks.{
  feed, last, AllData, all_wire, all_packets, loop-Transfers,
}

module _ (E : Env) where
  -- The read with which the stream ends.
  pub record IsClosed (q r : Processor) : Type 0 where
    pub sent : sent_bytes r.calls ≡ sent_bytes q.calls
    pub count : sends r.calls ≡ sends q.calls
    pub ending : (id : String) × (r.calls ≡ q.calls ++ detach id ∷ streams_done id ∷ [])
    pub one_detach : detaches r.calls ≡ suc (detaches q.calls)
    pub order : kinds r.calls ≡ kinds q.calls ++ detaching ∷ calling_back ∷ []
    pub inactive : r.active_stream ≡ false

  detached :
      (q : Processor) → q.active_stream ≡ true → IsClosed q (end_run (shutdown (call_detach q)))
  unfolding end_run shutdown call_detach
  detached q held =
      if_split (λ (x : Processor). IsClosed q (end_run (shutdown x))) q.active_stream _ q
        (λ _. record {
          sent =
              sent_bytes-append (q.calls ++ detach q.stream.stream_id ∷ [])
                (streams_done q.stream.stream_id ∷ [])
              ∙ (append-nil (sent_bytes (q.calls ++ detach q.stream.stream_id ∷ []))
                  ∙ (sent_bytes-append q.calls (detach q.stream.stream_id ∷ [])
                      ∙ append-nil (sent_bytes q.calls)));
          count = rw (sends-append, sends-append) (omega arith);
          ending = (
            q.stream.stream_id,
            append_assoc q.calls (detach q.stream.stream_id ∷ [])
                (streams_done q.stream.stream_id ∷ []),
          );
          one_detach = rw (detaches-append, detaches-append) (omega arith);
          order =
              map-append kind (q.calls ++ detach q.stream.stream_id ∷ [])
                (streams_done q.stream.stream_id ∷ [])
              ∙ (ap (λ (ks : List Kind). ks ++ calling_back ∷ [])
                    (map-append kind q.calls (detach q.stream.stream_id ∷ []))
                  ∙ append_assoc (kinds q.calls) (detaching ∷ []) (calling_back ∷ []));
          inactive = refl;
        })
        (λ e. absurd (cc))

  pub last-IsClosed :
      (e : Stream) (q : Processor)
      → e.eos ≡ true
      → q.shutdown_flag ≡ false
      → q.active_stream ≡ true
      → IsClosed q (end_run (loop E (last e ∷ []) q))
  unfolding body get_data_pointer dispatch end_of_data update_sri
  last-IsClosed e q eos clear held =
      let found : Processor = record q { stream = e; shutdown_flag = q.shutdown_flag || false } in
      let stopped : body E (last e) q ≡ shutdown (call_detach found) =
        ap (λ (b : Bool). shutdown (if b then call_detach found else found)) eos in
      let only : loop E (last e ∷ []) q ≡ shutdown (call_detach found) =
        loop-next E (last e) [] q clear
        ∙ (loop-stopped E [] (body E (last e) q)
              (unfold shutdown in ap (λ (x : Processor). x.shutdown_flag) stopped)
            ∙ stopped) in
      let closed = detached found held in
      subst (λ (x : Processor). IsClosed q (end_run x)) (sym only)
        (record {
          sent = closed.sent;
          count = closed.count;
          ending = closed.ending;
          one_detach = closed.one_detach;
          order = closed.order;
          inactive = closed.inactive;
        })

  -- A thread that was not told to shut down is started on an active stream, and the socket accepts every
  -- datagram. If the stream yields these blocks, each of at least one value and all of the native type,
  -- and then ends, the run sends the bytes of all blocks in order, in the byte order that the user
  -- asked for and nothing else, in as many datagrams as the blocks fill one by one, and at the end
  -- detaches the stream once and holds none.
  pub run_thread-sends :
      (accepts : (calls : List Call) (sock : ℕ) (m : Message) → E.sendmsg calls sock m ≡ true)
      (s e : Stream) (blocks : List Block) (p : Processor)
      → s.eos ≡ false
      → e.eos ≡ true
      → AllData p.native blocks
      → p.seq < 2 ^ 16
      → p.shutdown_flag ≡ false
      → p.active_stream ≡ true
      → let q = run_thread E (map (feed s) blocks ++ last e ∷ []) p in
        (sent_bytes q.calls ≡ sent_bytes p.calls ++ all_wire p.native p.user_settings blocks)
        × (sends q.calls ≡ sends p.calls + all_packets p.native blocks)
        × (detaches q.calls ≡ suc (detaches p.calls))
        × (q.active_stream ≡ false)
  unfolding run_thread begin
  run_thread-sends accepts s e blocks p going eos fits bound clear held =
      let (q, t, ended) = loop-Transfers E accepts s e blocks (begin p) going fits bound clear in
      let closed = last-IsClosed e q eos (t.flag ∙ clear) (t.active ∙ held) in
      let over : run_thread E (map (feed s) blocks ++ last e ∷ []) p
          ≡ end_run (loop E (last e ∷ []) q) =
        ap end_run ended in
      (
        ap (λ (x : Processor). sent_bytes x.calls) over ∙ (closed.sent ∙ t.sent),
        omega (arith, ap (λ (x : Processor). sends x.calls) over, closed.count, t.count),
        omega (arith, ap (λ (x : Processor). detaches x.calls) over, closed.one_detach, t.attached),
        ap (λ (x : Processor). x.active_stream) over ∙ closed.inactive,
      )

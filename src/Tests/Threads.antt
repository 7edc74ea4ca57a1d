-- ===== src/Tests/Threads.antt =====
-- The theorems on the thread of a processor.
use sink_sdds.Base.{suc, ◌≡◌, refl, true, false, List, [], ◌∷◌, ◌++◌, ◌+◌, map, arith}
use sink_sdds.Processor.Types.{Read, short, spawned, finished}
use sink_sdds.Processor.Loop.{shutdown, begin, run_thread}
use sink_sdds.Processor.Loop.Frame.{callbacks, detaches, sends}
use sink_sdds.Processor.Loop.Ending.{held, run_thread_lem}
use sink_sdds.Processor.Loop.Outcomes.{run_thread-refused}
use sink_sdds.Processor.Loop.Transfer.{sent_bytes, kinds, attaching, detaching, calling_back}
use sink_sdds.Processor.Loop.Transfer.Protocol.{blocks_kinds, run_thread-kinds}
use sink_sdds.Processor.Loop.Transfer.Blocks.{feed, last, IsData, all_wire, all_packets}
use sink_sdds.Processor.Loop.Transfer.Streaming.{run_thread-sends}
use sink_sdds.Processor.Send.{send_packet, send_fuel, next_seq}
use sink_sdds.Processor.Send.Numbering.{numbers, after_packets}
use sink_sdds.Processor.Send.Marks.{sent_marks}
use sink_sdds.Processor.Loop.Transfer.Marking.{run_thread-marks}
use sink_sdds.Processor.Loop.Transfer.Received.{received, all_filled, run_thread-received}
use sink_sdds.Processor.Datagrams.{FitsWire}
use sink_sdds.Processor.Reading.{get_data_pointer}
use sink_sdds.Processor.Lifecycle.{set_stream, join, run, launch}
use sink_sdds.Processor.Lifecycle.Restart.{run-after_idle_stop}
use sink_sdds.Tests.Samples.{env, block, refusing, read, last_read, stream_a, idle, holding}

abbrev reads : List Read
reads = record read { interrupted = false } ∷ last_read ∷ []

run_thread_lem_example :
    let q = run_thread env reads (holding short) in
    (q.first_run ≡ true)
    × (q.shutdown_flag ≡ false)
    × (q.running ≡ false)
    × (q.thread ≡ finished)
    × (callbacks q.calls ≡ suc (callbacks (holding short).calls))
    × (held q ≡ held (holding short))
run_thread_lem_example = run_thread_lem env reads (holding short)

run-after_idle_stop_example :
    let launched = run env [] (set_stream stream_a (join env [] (shutdown (idle short)))) in
    let done = run_thread env reads launched in
    (launched.thread ≡ spawned)
    × (sends done.calls ≡ sends (idle short).calls)
    × (done.active_stream ≡ true)
    × (done.stream ≡ stream_a)
run-after_idle_stop_example = run-after_idle_stop env (idle short) stream_a [] [] reads refl refl

run_thread-refused_example :
    let q = run_thread refusing reads (holding short) in
    (q.active_stream ≡ true) × (detaches q.calls ≡ 0)
unfolding send_packet send_fuel get_data_pointer begin
run_thread-refused_example =
    run_thread-refused refusing (record read { interrupted = false }) (last_read ∷ [])
      (holding short) refl refl

block-IsData : IsData short block
block-IsData = (omega arith, (omega arith, (omega arith, tt)))

-- A stream of two blocks and its end.
run_thread-sends_example :
    let q =
      run_thread env
        (map (feed stream_a) (block ∷ block ∷ []) ++ last last_read.stream ∷ [])
        (holding short) in
    (sent_bytes q.calls
      ≡ sent_bytes (holding short).calls
        ++ all_wire short (holding short).user_settings (block ∷ block ∷ []))
    × (sends q.calls ≡ sends (holding short).calls + all_packets short (block ∷ block ∷ []))
    × (detaches q.calls ≡ suc (detaches (holding short).calls))
    × (q.active_stream ≡ false)
run_thread-sends_example =
    run_thread-sends env (λ _ _ _. refl) stream_a last_read.stream (block ∷ block ∷ [])
      (holding short) refl refl (block-IsData, (block-IsData, tt)) (omega arith) refl refl

run_thread-kinds_example :
    kinds
      (run_thread env
        (map (feed stream_a) (block ∷ block ∷ []) ++ last last_read.stream ∷ [])
        (launch env (holding short))).calls
    ≡ kinds (holding short).calls
      ++ attaching ∷ (blocks_kinds short true (block ∷ block ∷ []) ++ detaching ∷ calling_back ∷ [])
run_thread-kinds_example =
    run_thread-kinds env (λ _ _ _. refl) stream_a last_read.stream (block ∷ block ∷ [])
      (holding short) refl refl (block-IsData, (block-IsData, tt)) (omega arith) refl refl

-- The second block has the number 0.
run_thread-marks_example :
    sent_marks
      (run_thread env
        (map (feed stream_a) (block ∷ block ∷ []) ++ last last_read.stream ∷ [])
        (record (holding short) { seq = 65534 })).calls
    ≡ 1 ∷ 0 ∷ []
unfolding numbers after_packets next_seq
run_thread-marks_example =
    run_thread-marks env (λ _ _ _. refl) stream_a last_read.stream block (block ∷ [])
      (record (holding short) { seq = 65534 }) refl refl (block-IsData, (block-IsData, tt))
      (omega arith) refl refl refl

-- A processor that has sent nothing yet.
sender-FitsWire : FitsWire (holding short)
sender-FitsWire = record { template = ground arith; sent = tt }

run_thread-received_example :
    received
      (run_thread env
        (map (feed stream_a) (block ∷ block ∷ []) ++ last last_read.stream ∷ [])
        (holding short)).calls
    ≡ all_filled short (holding short).user_settings (block ∷ block ∷ [])
run_thread-received_example =
    run_thread-received env (λ _ _ _. refl) stream_a last_read.stream (block ∷ block ∷ [])
      (holding short) refl refl (block-IsData, (block-IsData, tt)) (omega arith) refl refl
      sender-FitsWire

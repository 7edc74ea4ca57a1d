-- ===== src/Processor/Loop.antt =====
-- The processing thread, `_run` of cpp/BulkIOToSDDSProcessor.cpp, against the reads that the stream
-- answers. When the list of reads is used up the next read returns no block, as it does once the
-- component's ports are stopped.
pub mod Frame
pub mod Ending
pub mod Resume
pub mod Transfer
pub mod Outcomes
use sink_sdds.Base.{Bool, true, false, ◌||◌, none, List, [], ◌∷◌, if◌then◌else◌, ◌==◌}
use sink_sdds.Processor.Types.{Env, Read, testing, finished, streams_done, Processor}
use sink_sdds.Processor.Template.{set_sdds_header_from_sri}
use sink_sdds.Processor.Reading.{Data, get_data_pointer}
use sink_sdds.Processor.Send.{send_packet}
use sink_sdds.Processor.Calls.{record_call, call_detach, push_sri_to}

unfoldable pub shutdown : Processor → Processor
shutdown p = record p { shutdown_flag = true }

-- The part of the body that follows a change of the SRI.
unfoldable pub update_sri : Env → Data → Processor
update_sri E d =
    if d.sri_changed then set_sdds_header_from_sri E.floats (push_sri_to none d.after) else d.after

-- No bytes: the stream has ended, or the component was stopped.
unfoldable pub end_of_data : Processor → Processor
end_of_data p = shutdown (if p.stream.eos then call_detach p else p)

-- A packet went out; the block may have come with the end of the stream.
unfoldable pub after_send : Processor → Processor
after_send p =
    let later = record p { first_run = false } in
    if later.stream.eos then shutdown (call_detach later) else later

unfoldable pub dispatch : Env → Data → Processor → Processor
unfolding end_of_data after_send
dispatch E d p =
    let (sent, success) = send_packet E d.bytes d.bytes_read p in
    if d.bytes_read == 0
    then end_of_data p
    else (if success then after_send sent else shutdown sent)

-- Another thread may have called `shutdown` while the read was blocked.
abbrev pub interrupt : Bool → Processor → Processor
interrupt requested p = record p { shutdown_flag = p.shutdown_flag || requested }

-- One pass through the body of the loop.
unfoldable pub body : Env → Read → Processor → Processor
unfolding update_sri dispatch
body E r p = let d = get_data_pointer r p in dispatch E d (interrupt r.interrupted (update_sri E d))

abbrev pub no_data : Processor → Read
no_data p = record { block = λ _. none; stream = p.stream; interrupted = false }

unfoldable pub loop : Env → List Read → Processor → Processor
unfolding body
loop E [] p = if p.shutdown_flag then p else body E (no_data p) p
loop E (r ∷ reads) p = let rest = loop E reads (body E r p) in if p.shutdown_flag then p else rest

-- What is left of the loop for a thread that is blocked in the read.
unfoldable pub resume : Env → List Read → Processor → Processor
unfolding loop
resume E [] p = loop E [] (body E (no_data p) (record p { thread = testing }))
resume E (r ∷ reads) p = loop E reads (body E r (record p { thread = testing }))

unfoldable pub begin : Processor → Processor
begin p = record p { running = true; thread = testing }

-- After the loop: the flags are reset and the parent is called back, in a thread of its own.
unfoldable pub end_run : Processor → Processor
end_run p =
    record_call (streams_done p.stream.stream_id)
      (record p { first_run = true; shutdown_flag = false; running = false; thread = finished })

unfoldable pub run_thread : Env → List Read → Processor → Processor
unfolding begin loop end_run
run_thread E reads p = end_run (loop E reads (begin p))

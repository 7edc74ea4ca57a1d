-- ===== src/Processor/Loop/Outcomes.antt =====
-- The two ways in which a run of the thread is over after one read: the stream has ended, or the socket
-- refuses a packet.
use sink_sdds.Base.{
  ℕ, suc, ◌≡◌, refl, ap, ◌∙◌, sym, ◌||◌, Bool, true, false, none, List, [], ◌∷◌, arith,
  if◌then◌else◌, ◌==◌, if_both, Option-cases, Bool-cases, ◌≢◌, inl, inr,
}
use sink_sdds.Processor.Types.{Env, Read, Processor}
use sink_sdds.Processor.Template.{set_sdds_header_from_sri}
use sink_sdds.Processor.Reading.{Data, read_size, get_data_pointer}
use sink_sdds.Processor.Send.{send_packet, send_fuel}
use sink_sdds.Processor.Calls.{call_detach, push_sri_to}
use sink_sdds.Processor.Loop.{
  shutdown, update_sri, end_of_data, after_send, dispatch, interrupt, body, begin, end_run,
  run_thread,
}
use sink_sdds.Processor.Loop.Frame.{detaches, send_packet-IsSending}
use sink_sdds.Processor.Loop.Ending.{as_number, held, loop-stopped, loop-next, run_thread_lem}

push_sri_to-active : (p : Processor) → (push_sri_to none p).active_stream ≡ p.active_stream
unfolding push_sri_to
push_sri_to-active p =
    if_both (λ (q : Processor). q.active_stream ≡ p.active_stream) p.active_stream _ p refl refl

module _ (E : Env) where
  read-active :
      (r : Read) (p : Processor) → (get_data_pointer r p).after.active_stream ≡ p.active_stream
  unfolding get_data_pointer
  read-active r p = elim (Option-cases (r.block (read_size p.native p.stream.sri.mode))) [
    | inl e ↦ rw (e, get_data_pointer) refl
    | inr (b, e) ↦ rw (e, get_data_pointer) refl
  ]

  read-none :
      (r : Read) (p : Processor)
      → r.block (read_size p.native p.stream.sri.mode) ≡ none
      → get_data_pointer r p ≡ record {
        after = record p { stream = r.stream };
        bytes_read = 0;
        bytes = [];
        sri_changed = false;
      }
  unfolding get_data_pointer
  read-none r p e = rw (e, get_data_pointer) refl

  update_sri-active : (d : Data) → (update_sri E d).active_stream ≡ d.after.active_stream
  unfolding update_sri set_sdds_header_from_sri
  update_sri-active d =
      if_both (λ (q : Processor). q.active_stream ≡ d.after.active_stream) d.sri_changed _ d.after
        (push_sri_to-active d.after) refl

  -- A body that sets `m_shutdown` is the last of the run.
  run_thread-one :
      (r : Read) (reads : List Read) (p : Processor)
      → p.shutdown_flag ≡ false
      → (body E r (begin p)).shutdown_flag ≡ true
      → run_thread E (r ∷ reads) p ≡ end_run (body E r (begin p))
  unfolding run_thread begin
  run_thread-one r reads p clear set =
      ap end_run
        (loop-next E r reads (begin p) clear ∙ loop-stopped E reads (body E r (begin p)) set)

  nothing_to_send :
      (bytes : List ℕ) (n : ℕ) (p : Processor)
      → (n == 0) ≡ true
      → (send_packet E bytes n p).1 ≡ true
  unfolding send_packet send_fuel
  nothing_to_send bytes n p e = rw e refl

  -- The processor that `sendPacket` is called on.
  abbrev pub sending : Read → Processor → Processor
  sending r p = interrupt r.interrupted (update_sri E (get_data_pointer r p))

  -- The call fails only if there is something to send.
  body-refused :
      (r : Read) (p : Processor)
      → let d = get_data_pointer r p in
        (send_packet E d.bytes d.bytes_read (sending r p)).1 ≡ false
        → body E r p ≡ shutdown (send_packet E d.bytes d.bytes_read (sending r p)).0
  unfolding body dispatch
  body-refused r p refused =
      let d : Data = get_data_pointer r p in
      let q : Processor = sending r p in
      let sent : Processor × Bool = send_packet E d.bytes d.bytes_read q in
      elim (Bool-cases (d.bytes_read == 0)) [
        | inl e ↦ absurd (differ (sym (nothing_to_send d.bytes d.bytes_read q e) ∙ refused))
        | inr e ↦
            ap
              (λ (b : Bool).
                if b
                then end_of_data q
                else (if sent.1 then after_send sent.0 else shutdown sent.0))
              e
            ∙ ap (λ (b : Bool). if b then after_send sent.0 else shutdown sent.0) refused
      ]
    where
      differ : true ≢ false
      differ e = cc

  -- If the socket refuses a packet of the first read of a run that was not told to shut down, the run is
  -- over: no stream is let go, and the stream is still active when the parent is called back.
  pub run_thread-refused :
      (r : Read) (reads : List Read) (p : Processor)
      → p.shutdown_flag ≡ false
      → let d = get_data_pointer r (begin p) in
        (send_packet E d.bytes d.bytes_read (sending r (begin p))).1 ≡ false
        → let q = run_thread E (r ∷ reads) p in
          (q.active_stream ≡ p.active_stream) × (detaches q.calls ≡ detaches p.calls)
  run_thread-refused r reads p clear refused =
      (active, omega (arith, balanced, ap as_number active))
    where
      d : Data
      d = get_data_pointer r (begin p)

      sent : Processor
      sent = (send_packet E d.bytes d.bytes_read (sending r (begin p))).0

      stopped : body E r (begin p) ≡ shutdown sent
      stopped = body-refused r (begin p) refused

      ended : run_thread E (r ∷ reads) p ≡ end_run (shutdown sent)
      ended =
          unfold shutdown in
          run_thread-one r reads p clear (ap (λ (q : Processor). q.shutdown_flag) stopped)
          ∙ ap end_run stopped

      active : (run_thread E (r ∷ reads) p).active_stream ≡ p.active_stream
      active =
          unfold end_run shutdown begin in
          ap (λ (q : Processor). q.active_stream) ended
          ∙ ((send_packet-IsSending E d.bytes d.bytes_read (sending r (begin p))).active
              ∙ (update_sri-active d ∙ read-active r (begin p)))

      balanced : held (run_thread E (r ∷ reads) p) ≡ held p
      balanced = (run_thread_lem E (r ∷ reads) p).5

  -- If the first read of a run that was not told to shut down finds the active stream at its end, the run
  -- is over: the stream is let go with one `detach`, and no stream is active when the parent is called
  -- back.
  run_thread-eos :
      (r : Read) (reads : List Read) (p : Processor)
      → p.shutdown_flag ≡ false
      → p.active_stream ≡ true
      → r.block (read_size p.native p.stream.sri.mode) ≡ none
      → r.stream.eos ≡ true
      → let q = run_thread E (r ∷ reads) p in
        (q.active_stream ≡ false)
        × (detaches q.calls ≡ suc (detaches p.calls))
        × (q.stream ≡ r.stream)
  run_thread-eos r reads p clear held_stream no_block eos =
      (inactive, omega (arith, balanced, ap as_number inactive, ap as_number held_stream), stream)
    where
      found : Processor
      found = record (begin p) {
        stream = r.stream;
        shutdown_flag = p.shutdown_flag || r.interrupted;
      }

      stopped : body E r (begin p) ≡ shutdown (call_detach found)
      stopped =
          unfold body dispatch end_of_data update_sri begin in
          ap (λ (d : Data). dispatch E d (interrupt r.interrupted (update_sri E d)))
            (read-none r (begin p) no_block)
          ∙ ap (λ (b : Bool). shutdown (if b then call_detach found else found)) eos

      ended : run_thread E (r ∷ reads) p ≡ end_run (shutdown (call_detach found))
      ended =
          unfold shutdown in
          run_thread-one r reads p clear (ap (λ (q : Processor). q.shutdown_flag) stopped)
          ∙ ap end_run stopped

      inactive : (run_thread E (r ∷ reads) p).active_stream ≡ false
      inactive =
          unfold end_run shutdown call_detach begin in
          ap (λ (q : Processor). q.active_stream) ended ∙ rw held_stream refl

      stream : (run_thread E (r ∷ reads) p).stream ≡ r.stream
      stream =
          unfold end_run shutdown call_detach begin in
          ap (λ (q : Processor). q.stream) ended ∙ rw held_stream refl

      balanced : held (run_thread E (r ∷ reads) p) ≡ held p
      balanced = (run_thread_lem E (r ∷ reads) p).5

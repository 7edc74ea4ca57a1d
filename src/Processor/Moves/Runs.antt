-- ===== src/Processor/Moves/Runs.antt =====
-- The steps of the thread from its creation to its end, against `_run` as a whole.
use sink_sdds.Base.{
  ◌≡◌, refl, sym, ap, ◌∙◌, Bool, false, none, Option, String, List, [], ◌∷◌, arith, ◌==◌, if_both,
  if_split, Option-cases, inl, inr,
}
use sink_sdds.Processor.Types.{Env, Read, Thread, spawned, testing, reading, Processor}
use sink_sdds.Processor.Template.{set_sdds_header_from_sri}
use sink_sdds.Processor.Reading.{Data, read_size, get_data_pointer}
use sink_sdds.Processor.Send.{send_packet}
use sink_sdds.Processor.Calls.{call_detach, push_sri_to}
use sink_sdds.Processor.Loop.{
  shutdown, update_sri, end_of_data, after_send, dispatch, interrupt, body, no_data, loop, begin,
  end_run, run_thread,
}
use sink_sdds.Processor.Loop.Frame.{send_packet-IsSending}
use sink_sdds.Processor.Loop.Ending.{no_data-flag}
use sink_sdds.Processor.Moves.{begins, leaves, enters, reads, Moves, done, then_on}

-- What a round of the loop leaves alone.
pub record Keeps (p q : Processor) : Type 0 where
  pub thread : q.thread ≡ p.thread
  pub running : q.running ≡ p.running

call_detach-Keeps : (p : Processor) → Keeps p (call_detach p)
unfolding call_detach
call_detach-Keeps p = ground arith

pub push_sri_to-Keeps : (target : Option String) (p : Processor) → Keeps p (push_sri_to target p)
unfolding push_sri_to
push_sri_to-Keeps target p = ground arith

end_of_data-Keeps : (p : Processor) → Keeps p (end_of_data p)
unfolding end_of_data shutdown
end_of_data-Keeps p = ground (arith, call_detach-Keeps p)

after_send-Keeps : (p : Processor) → Keeps p (after_send p)
unfolding after_send shutdown
after_send-Keeps p = ground (arith, call_detach-Keeps (record p { first_run = false }))

module _ (E : Env) where
  read-Keeps : (r : Read) (p : Processor) → Keeps p (get_data_pointer r p).after
  unfolding get_data_pointer
  read-Keeps r p = elim (Option-cases (r.block (read_size p.native p.stream.sri.mode))) [
    | inl e ↦ rw (e, get_data_pointer) (record { thread = refl; running = refl })
    | inr (b, e) ↦ rw (e, get_data_pointer) (record { thread = refl; running = refl })
  ]

  update_sri-Keeps : (d : Data) → Keeps d.after (update_sri E d)
  unfolding update_sri set_sdds_header_from_sri
  update_sri-Keeps d =
      if_both (Keeps d.after) d.sri_changed _ d.after
        (ground (arith, push_sri_to-Keeps none d.after)) (record { thread = refl; running = refl })

  dispatch-Keeps : (d : Data) (p : Processor) → Keeps p (dispatch E d p)
  unfolding dispatch shutdown
  dispatch-Keeps d p =
      let sent : Processor × Bool = send_packet E d.bytes d.bytes_read p in
      let kept = send_packet-IsSending E d.bytes d.bytes_read p in
      if_both (Keeps p) (d.bytes_read == 0) (end_of_data p) _ (end_of_data-Keeps p) (
        if_both (Keeps p) sent.1 (after_send sent.0) (shutdown sent.0)
          (ground (arith, after_send-Keeps sent.0, kept.thread, kept.running))
          (record { thread = kept.thread; running = kept.running }))

  pub body-Keeps : (r : Read) (p : Processor) → Keeps p (body E r p)
  unfolding body
  body-Keeps r p =
      let d : Data = get_data_pointer r p in
      ground (
        arith,
        read-Keeps r p,
        update_sri-Keeps d,
        dispatch-Keeps d (interrupt r.interrupted (update_sri E d)),
      )

  body-testing : (r : Read) (p : Processor) → p.thread ≡ testing → (body E r p).thread ≡ testing
  body-testing r p h = (body-Keeps r p).thread ∙ h

  same_thread : (t : Thread) (p : Processor) → p.thread ≡ t → record p { thread = t } ≡ p
  same_thread t p h = ap (λ (u : Thread). record p { thread = u }) (sym h)

  -- A test that passes, and the round that follows it.
  round :
      (r : Read) (p : Processor)
      → p.thread ≡ testing
      → p.shutdown_flag ≡ false
      → (end : Processor) → Moves E (body E r p) end
      → Moves E p end
  round r p h e end rest =
      let entered : Processor = record p { thread = reading } in
      then_on p entered end (enters h e refl) (
        then_on entered (body E r p) end
          (reads r refl (ap (body E r) (sym (same_thread testing p h)))) rest)

  -- A thread about to test `m_shutdown` gets to the end of the loop.
  pub loop-Moves :
      (reads_left : List Read) (p : Processor)
      → p.thread ≡ testing
      → Moves E p (end_run (loop E reads_left p))
  unfolding loop
  loop-Moves [] p h =
      if_split (λ (q : Processor). Moves E p (end_run q)) p.shutdown_flag p _
        (λ e. then_on p (end_run p) (end_run p) (leaves h e refl) (done (end_run p)))
        (λ e.
          let q : Processor = body E (no_data p) p in
          round (no_data p) p h e (end_run q) (
            then_on q (end_run q) (end_run q)
              (leaves (body-testing (no_data p) p h) (no_data-flag E p) refl) (done (end_run q))))
  loop-Moves (r ∷ reads_left) p h =
      if_split (λ (q : Processor). Moves E p (end_run q)) p.shutdown_flag p _
        (λ e. then_on p (end_run p) (end_run p) (leaves h e refl) (done (end_run p)))
        (λ e.
          round r p h e (end_run (loop E reads_left (body E r p)))
            (loop-Moves reads_left (body E r p) (body-testing r p h)))

  pub run_thread-Moves :
      (reads_left : List Read) (p : Processor)
      → p.thread ≡ spawned
      → Moves E p (run_thread E reads_left p)
  unfolding run_thread begin
  run_thread-Moves reads_left p h =
      then_on p (begin p) _ (begins h refl) (loop-Moves reads_left (begin p) refl)

-- ===== src/Processor/Loop/Ending.antt =====
-- How a run of the processing thread ends.
use native.Mathlib.Nat.{le_refl}
use sink_sdds.Base.{
  ℕ, suc, ◌≤◌, ◌+◌, ◌≡◌, refl, ap, ◌∙◌, Bool, true, false, none, List, [], ◌∷◌, arith,
  if◌then◌else◌, ◌==◌, if_both, inl, inr, Option-cases,
}
use sink_sdds.Processor.Types.{Env, Read, detach, streams_done, finished, Processor}
use sink_sdds.Processor.Template.{set_sdds_header_from_sri}
use sink_sdds.Processor.Reading.{Data, read_size, get_data_pointer}
use sink_sdds.Processor.Send.{send_packet}
use sink_sdds.Processor.Calls.{call_detach, push_sri_to}
use sink_sdds.Processor.Loop.{
  shutdown, update_sri, end_of_data, after_send, dispatch, interrupt, body, no_data, loop, begin,
  end_run, run_thread,
}
use sink_sdds.Processor.Loop.Frame.{
  detaches, callbacks, detaches-append, callbacks-append, send_packet-IsSending,
}

abbrev pub as_number : Bool → ℕ
as_number true = 1
as_number false = 0

-- The number of streams let go so far and the one that is still held.
abbrev pub held : Processor → ℕ
held p = detaches p.calls + as_number p.active_stream

-- Between two states of a thread: streams are let go by `detach` only, and nobody is called back.
pub record IsBalanced (p q : Processor) : Type 0 where
  pub same_held : held q ≡ held p
  pub same_callbacks : callbacks q.calls ≡ callbacks p.calls
  pub grows : detaches p.calls ≤ detaches q.calls

pub IsBalanced-trans : (p q r : Processor) → IsBalanced p q → IsBalanced q r → IsBalanced p r
IsBalanced-trans p q r h k = ground arith

call_detach-IsBalanced : (p : Processor) → IsBalanced p (call_detach p)
unfolding call_detach
call_detach-IsBalanced p = ground (
  arith,
  detaches-append p.calls (detach p.stream.stream_id ∷ []),
  callbacks-append p.calls (detach p.stream.stream_id ∷ []),
)

end_of_data-IsBalanced : (p : Processor) → IsBalanced p (end_of_data p)
unfolding end_of_data shutdown
end_of_data-IsBalanced p = ground (arith, call_detach-IsBalanced p)

after_send-IsBalanced : (p : Processor) → IsBalanced p (after_send p)
unfolding after_send shutdown
after_send-IsBalanced p = ground (arith, call_detach-IsBalanced (record p { first_run = false }))

IsBalanced-refl : (p : Processor) → IsBalanced p p
IsBalanced-refl p = record { same_held = refl; same_callbacks = refl; grows = le_refl _ }

-- A state that has the same stream flag and the same calls.
IsBalanced-same :
    (p q : Processor) → q.active_stream ≡ p.active_stream → q.calls ≡ p.calls → IsBalanced p q
IsBalanced-same p q a c = record {
  same_held = rw (a, c);
  same_callbacks = rw c;
  grows = rw c (le_refl _);
}

push_sri_to-IsBalanced : (p : Processor) → IsBalanced p (push_sri_to none p)
unfolding push_sri_to
push_sri_to-IsBalanced p =
    if_both (λ q. IsBalanced p q) p.active_stream _ p
      (record {
        same_held = rw detaches-append (omega arith);
        same_callbacks = rw callbacks-append (omega arith);
        grows = rw detaches-append (omega arith);
      })
      (IsBalanced-refl p)

module _ (E : Env) where
  from_sri-IsBalanced : (p : Processor) → IsBalanced p (set_sdds_header_from_sri E.floats p)
  unfolding set_sdds_header_from_sri
  from_sri-IsBalanced p = IsBalanced-same p _ refl refl

  reading-IsBalanced : (r : Read) (p : Processor) → IsBalanced p (get_data_pointer r p).after
  unfolding get_data_pointer
  reading-IsBalanced r p = elim (Option-cases (r.block (read_size p.native p.stream.sri.mode))) [
    | inl e ↦ rw (e, get_data_pointer) (IsBalanced-same p _ refl refl)
    | inr (b, e) ↦ rw (e, get_data_pointer) (IsBalanced-same p _ refl refl)
  ]

  update_sri-IsBalanced : (d : Data) → IsBalanced d.after (update_sri E d)
  unfolding update_sri
  update_sri-IsBalanced d =
      if_both (λ q. IsBalanced d.after q) d.sri_changed _ d.after
        (IsBalanced-trans _ _ _ (push_sri_to-IsBalanced d.after)
          (from_sri-IsBalanced (push_sri_to none d.after)))
        (IsBalanced-refl d.after)

  interrupt-IsBalanced : (b : Bool) (p : Processor) → IsBalanced p (interrupt b p)
  interrupt-IsBalanced b p = IsBalanced-same p _ refl refl

  send_packet-IsBalanced :
      (bytes : List ℕ) (n : ℕ) (p : Processor) → IsBalanced p (send_packet E bytes n p).0
  send_packet-IsBalanced bytes n p = ground (arith, send_packet-IsSending E bytes n p)

  dispatch-IsBalanced : (d : Data) (p : Processor) → IsBalanced p (dispatch E d p)
  unfolding dispatch shutdown
  dispatch-IsBalanced d p =
      let (sent, success) = send_packet E d.bytes d.bytes_read p in
      if_both (λ q. IsBalanced p q) (d.bytes_read == 0) (end_of_data p) _ (end_of_data-IsBalanced p)
        (if_both (λ q. IsBalanced p q) success (after_send sent) (shutdown sent)
          (IsBalanced-trans p sent _ (send_packet-IsBalanced d.bytes d.bytes_read p)
            (after_send-IsBalanced sent))
          (IsBalanced-trans p sent _ (send_packet-IsBalanced d.bytes d.bytes_read p)
            (IsBalanced-same sent _ refl refl)))

  pub body-IsBalanced : (r : Read) (p : Processor) → IsBalanced p (body E r p)
  unfolding body
  body-IsBalanced r p =
      let d = get_data_pointer r p in
      IsBalanced-trans p d.after _ (reading-IsBalanced r p) (
        IsBalanced-trans d.after (update_sri E d) _ (update_sri-IsBalanced d) (
          IsBalanced-trans (update_sri E d) (interrupt r.interrupted (update_sri E d)) _
            (interrupt-IsBalanced r.interrupted (update_sri E d))
            (dispatch-IsBalanced d (interrupt r.interrupted (update_sri E d)))))

  pub loop-IsBalanced : (reads : List Read) (p : Processor) → IsBalanced p (loop E reads p)
  unfolding loop
  loop-IsBalanced [] p =
      if_both (λ q. IsBalanced p q) p.shutdown_flag p _ (IsBalanced-refl p)
        (body-IsBalanced (no_data p) p)
  loop-IsBalanced (r ∷ reads) p =
      if_both (λ q. IsBalanced p q) p.shutdown_flag p _ (IsBalanced-refl p)
        (IsBalanced-trans p (body E r p) _ (body-IsBalanced r p)
          (loop-IsBalanced reads (body E r p)))

  call_detach-flag : (p : Processor) → (call_detach p).shutdown_flag ≡ p.shutdown_flag
  unfolding call_detach
  call_detach-flag p = ground arith

  -- A request to shut down is not lost in the rest of the body.
  dispatch-flag :
      (d : Data) (p : Processor) → p.shutdown_flag ≡ true → (dispatch E d p).shutdown_flag ≡ true
  unfolding dispatch end_of_data after_send shutdown
  dispatch-flag d p h =
      let sent : Processor × Bool = send_packet E d.bytes d.bytes_read p in
      let kept : sent.0.shutdown_flag ≡ true =
        (send_packet-IsSending E d.bytes d.bytes_read p).shutdown_flag ∙ h in
      if_both (λ (q : Processor). q.shutdown_flag ≡ true) (d.bytes_read == 0) _ _ refl
        (if_both (λ (q : Processor). q.shutdown_flag ≡ true) sent.1 (after_send sent.0) _
          (if_both (λ (q : Processor). q.shutdown_flag ≡ true) sent.0.stream.eos _
            (record (sent.0) { first_run = false }) refl kept)
          refl)

  pub no_data-flag : (p : Processor) → (body E (no_data p) p).shutdown_flag ≡ true
  unfolding body dispatch end_of_data shutdown get_data_pointer
  no_data-flag p = refl

  body-flag : (r : Read) (p : Processor) → r.interrupted ≡ true → (body E r p).shutdown_flag ≡ true
  unfolding body
  body-flag r p h =
      let d = get_data_pointer r p in
      dispatch-flag d (interrupt r.interrupted (update_sri E d)) (ground arith)

  pub loop-stopped :
      (reads : List Read) (p : Processor) → p.shutdown_flag ≡ true → loop E reads p ≡ p
  unfolding loop
  loop-stopped [] p h = ap (λ (b : Bool). if b then p else body E (no_data p) p) h
  loop-stopped (r ∷ reads) p h = ap (λ (b : Bool). if b then p else loop E reads (body E r p)) h

  pub loop-next :
      (r : Read) (reads : List Read) (p : Processor)
      → p.shutdown_flag ≡ false
      → loop E (r ∷ reads) p ≡ loop E reads (body E r p)
  unfolding loop
  loop-next r reads p h = ap (λ (b : Bool). if b then p else loop E reads (body E r p)) h

  -- If `m_shutdown` is clear before a read and another thread calls `shutdown` during it, the body is
  -- done with that read's data, `m_shutdown` is set afterwards, and there is no other read.
  loop_ends :
      (r : Read) (reads : List Read) (p : Processor)
      → p.shutdown_flag ≡ false
      → r.interrupted ≡ true
      → (loop E (r ∷ reads) p ≡ body E r p) × ((body E r p).shutdown_flag ≡ true)
  loop_ends r reads p e h =
      (loop-next r reads p e ∙ loop-stopped reads (body E r p) (body-flag r p h), body-flag r p h)

  -- A run leaves the flags as the constructor set them and calls the parent back once. Every stream
  -- that it lets go was announced by one `detach`, and no stream is let go twice: the number of `detach`
  -- calls and the stream still held, 1 or 0, have the same sum before and after.
  pub run_thread_lem :
      (reads : List Read) (p : Processor)
      → let q = run_thread E reads p in
        (q.first_run ≡ true)
        × (q.shutdown_flag ≡ false)
        × (q.running ≡ false)
        × (q.thread ≡ finished)
        × (callbacks q.calls ≡ suc (callbacks p.calls))
        × (held q ≡ held p)
  unfolding run_thread begin end_run
  run_thread_lem reads p =
      let ended : Processor = loop E reads (begin p) in
      let balanced = loop-IsBalanced reads (begin p) in
      let back = streams_done ended.stream.stream_id ∷ [] in
      (
        refl,
        refl,
        refl,
        refl,
        omega (arith, callbacks-append ended.calls back, balanced.same_callbacks),
        omega (arith, detaches-append ended.calls back, balanced.same_held),
      )

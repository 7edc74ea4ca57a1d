-- ===== src/Processor/Invariant.antt =====
-- Invariants of a processor of cpp/BulkIOToSDDSProcessor.cpp that speak of its header template, its sequence
-- number and its calls: what such an invariant has to satisfy, and the loop of `_run` from that.
pub mod Control
use sink_sdds.Base.{
  ℕ, zero, suc, ◌-◌, ◌≤◌, ◌≡◌, ◌≢◌, refl, Option, String, Bool, true, false, none, Option-cases,
  inl, inr, List, [], ◌∷◌, ◌==◌, ==_iff, leb, if_both, if_split, if◌then◌else◌, drop, length,
  length-drop, AllBelow, drop-AllBelow, arith, sym,
}
use sink_sdds.Packet.Header.{Header}
use sink_sdds.Packet.Layout.{FitsLayout}
use sink_sdds.Processor.Types.{Env, Call, Read, attach, detach, push_sri, Processor}
use sink_sdds.Processor.Template.{set_sdds_header_from_sri}
use sink_sdds.Processor.Template.Layout.{set_sdds_header_from_sri-FitsLayout}
use sink_sdds.Processor.Reading.{sdds_data_size, Data, read_size, get_data_pointer}
use sink_sdds.Processor.Reading.Payload.{AreBytes, get_data_pointer-AreBytes}
use sink_sdds.Processor.Send.{prepare, chunk, message, record_send, send_fuel, send_packet}
use sink_sdds.Processor.Send.Delivery.{left-le}
use sink_sdds.Processor.Calls.{
  call_detach, call_attach, stream_definition, record_call, push_sri_to, annotate,
}
use sink_sdds.Processor.Loop.{
  shutdown, update_sri, end_of_data, after_send, dispatch, interrupt, body, no_data, loop,
}
use sink_sdds.Processor.Loop.Frame.{sends}

-- `called` is for the calls that leave the class but are not of `sendmsg`; `sent` is for one datagram of
-- `sendPacket` with its preparation; `framed` is for the other changes of the header template.
pub record IsInvariant (E : Env) (N : Processor → Type 0) : Type 0 where
  pub same :
      (p q : Processor) → q.template ≡ p.template → q.seq ≡ p.seq → q.calls ≡ p.calls → N p → N q
  pub called : (c : Call) (p : Processor) → sends (c ∷ []) ≡ 0 → N p → N (record_call c p)
  pub framed :
      (h : Header) (p : Processor)
      → (FitsLayout p.template → FitsLayout h)
      → N p
      → N (record p { template = h })
  pub sent :
      (bytes : List ℕ) (n : ℕ) (p : Processor)
      → n ≤ length bytes
      → AllBelow 256 bytes
      → N p
      → N (record_send E (message bytes n (prepare E p)) (prepare E p))

module _ {E : Env} {N : Processor → Type 0} (laws : IsInvariant E N) where
  call_detach-keeps : (p : Processor) → N p → N (call_detach p)
  unfolding call_detach
  call_detach-keeps p v =
      if_both N p.active_stream _ p
        (laws.called (detach p.stream.stream_id) (record p { active_stream = false }) refl
          (laws.same p _ refl refl refl v))
        v

  pub call_attach-keeps : (p : Processor) → N p → N (call_attach E none p)
  unfolding call_attach
  call_attach-keeps p v =
      if_both N p.active_stream _ p
        (laws.called (attach none (stream_definition E p) p.attach_settings.user_id) p refl v) v

  pub push_sri_to-keeps : (target : Option String) (p : Processor) → N p → N (push_sri_to target p)
  unfolding push_sri_to
  push_sri_to-keeps target p v =
      if_both N p.active_stream _ p
        (laws.called (push_sri target (annotate p) p.current_time) (record p { sri = annotate p })
          refl (laws.same p _ refl refl refl v))
        v

  send_fuel-keeps :
      (fuel : ℕ) (bytes : List ℕ) (n : ℕ) (p : Processor)
      → n ≤ length bytes
      → AllBelow 256 bytes
      → N p
      → N (send_fuel E fuel bytes n p).0
  unfolding send_fuel
  send_fuel-keeps zero bytes n p le below v = v
  send_fuel-keeps (suc fuel) bytes n p le below v =
      let ready : Processor = prepare E p in
      let sent : Processor = record_send E (message bytes n ready) ready in
      let left : List ℕ = drop sdds_data_size bytes in
      let kept : N sent = laws.sent bytes n p le below v in
      let Meant : Processor × Bool → Type 0 = λ r. N r.0 in
      if_both Meant (n == 0) (p, true) _ v
        (if_both Meant (E.sendmsg ready.calls ready.connection.sock (message bytes n ready))
          (send_fuel E fuel left (n - chunk n) sent) (sent, false)
          (send_fuel-keeps fuel left (n - chunk n) sent (left-le bytes n le)
            (drop-AllBelow 256 sdds_data_size bytes below) kept)
          kept)

  end_of_data-keeps : (p : Processor) → N p → N (end_of_data p)
  unfolding end_of_data shutdown
  end_of_data-keeps p v =
      if_both (λ (q : Processor). N (record q { shutdown_flag = true })) p.stream.eos _ p
        (laws.same (call_detach p) _ refl refl refl (call_detach-keeps p v))
        (laws.same p _ refl refl refl v)

  after_send-keeps : (p : Processor) → N p → N (after_send p)
  unfolding after_send shutdown
  after_send-keeps p v =
      let later : Processor = record p { first_run = false } in
      let kept : N later = laws.same p later refl refl refl v in
      if_both N p.stream.eos _ later
        (laws.same (call_detach later) _ refl refl refl (call_detach-keeps later kept)) kept

  read-keeps : (r : Read) (p : Processor) → N p → N (get_data_pointer r p).after
  unfolding get_data_pointer
  read-keeps r p v = elim (Option-cases (r.block (read_size p.native p.stream.sri.mode))) [
    | inl e ↦ rw (e, get_data_pointer) (laws.same p _ refl refl refl v)
    | inr (b, e) ↦ rw (e, get_data_pointer) (laws.same p _ refl refl refl v)
  ]

  update_sri-keeps : (d : Data) → N d.after → N (update_sri E d)
  unfolding update_sri set_sdds_header_from_sri
  update_sri-keeps d v =
      let pushed : Processor = push_sri_to none d.after in
      let w : N pushed = push_sri_to-keeps none d.after v in
      if_both N d.sri_changed _ d.after
        (laws.framed (set_sdds_header_from_sri E.floats pushed).template pushed
          (λ fits. set_sdds_header_from_sri-FitsLayout pushed fits E.floats) w)
        v

  dispatch-keeps :
      (d : Data) (p : Processor) → AreBytes d.bytes_read d.bytes → N p → N (dispatch E d p)
  unfolding dispatch shutdown send_packet
  dispatch-keeps d p (below, long) v =
      let sent : Processor × Bool = send_packet E d.bytes d.bytes_read p in
      let w : N sent.0 =
        send_fuel-keeps (suc d.bytes_read) d.bytes d.bytes_read p (omega (arith, long)) below v in
      if_both N (d.bytes_read == 0) (end_of_data p) _ (end_of_data-keeps p v) (
        if_both N sent.1 (after_send sent.0) (shutdown sent.0) (after_send-keeps sent.0 w)
          (laws.same sent.0 _ refl refl refl w))

  -- A round of the loop.
  pub body-keeps : (r : Read) (p : Processor) → N p → N (body E r p)
  unfolding body
  body-keeps r p v =
      let d : Data = get_data_pointer r p in
      let updated : Processor = update_sri E d in
      dispatch-keeps d (interrupt r.interrupted updated) (get_data_pointer-AreBytes r p)
        (laws.same updated _ refl refl refl (update_sri-keeps d (read-keeps r p v)))

  pub loop-keeps : (reads : List Read) (p : Processor) → N p → N (loop E reads p)
  unfolding loop
  loop-keeps [] p v = if_both N p.shutdown_flag p _ v (body-keeps (no_data p) p v)
  loop-keeps (r ∷ reads) p v =
      if_both N p.shutdown_flag p _ v (loop-keeps reads (body E r p) (body-keeps r p v))

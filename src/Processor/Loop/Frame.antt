-- ===== src/Processor/Loop/Frame.antt =====
-- What sending leaves alone, and the count of the calls that leave the class.
use sink_sdds.Base.{
  ℕ, zero, suc, ◌+◌, ◌-◌, ◌≡◌, refl, Bool, true, false, List, [], ◌∷◌, ◌++◌, arith, ◌==◌, if_both,
  drop,
}
use sink_sdds.Processor.Types.{Env, Call, attach, detach, push_sri, send, streams_done, Processor}
use sink_sdds.Processor.Template.{set_sdds_timestamp}
use sink_sdds.Processor.Reading.{sdds_data_size}
use sink_sdds.Processor.Send.{prepare, chunk, message, record_send, send_fuel, send_packet}

-- How often `detach`, the callback of the parent, and `sendmsg` were called.
abbrev pub detaches : List Call → ℕ
detaches [] = 0
detaches (detach s ∷ cs) = suc (detaches cs)
detaches (_ ∷ cs) = detaches cs

abbrev pub callbacks : List Call → ℕ
callbacks [] = 0
callbacks (streams_done s ∷ cs) = suc (callbacks cs)
callbacks (_ ∷ cs) = callbacks cs

abbrev pub sends : List Call → ℕ
sends [] = 0
sends (send s m b ∷ cs) = suc (sends cs)
sends (_ ∷ cs) = sends cs

pub detaches-append : (cs ds : List Call) → detaches (cs ++ ds) ≡ detaches cs + detaches ds
detaches-append [] ds = omega arith
detaches-append (attach t d u ∷ cs) ds = detaches-append cs ds
detaches-append (detach s ∷ cs) ds = omega (arith, detaches-append cs ds)
detaches-append (push_sri t s c ∷ cs) ds = detaches-append cs ds
detaches-append (send s m b ∷ cs) ds = detaches-append cs ds
detaches-append (streams_done s ∷ cs) ds = detaches-append cs ds

pub callbacks-append : (cs ds : List Call) → callbacks (cs ++ ds) ≡ callbacks cs + callbacks ds
callbacks-append [] ds = omega arith
callbacks-append (attach t d u ∷ cs) ds = callbacks-append cs ds
callbacks-append (detach s ∷ cs) ds = callbacks-append cs ds
callbacks-append (push_sri t s c ∷ cs) ds = callbacks-append cs ds
callbacks-append (send s m b ∷ cs) ds = callbacks-append cs ds
callbacks-append (streams_done s ∷ cs) ds = omega (arith, callbacks-append cs ds)

pub sends-append : (cs ds : List Call) → sends (cs ++ ds) ≡ sends cs + sends ds
sends-append [] ds = omega arith
sends-append (attach t d u ∷ cs) ds = sends-append cs ds
sends-append (detach s ∷ cs) ds = sends-append cs ds
sends-append (push_sri t s c ∷ cs) ds = sends-append cs ds
sends-append (send s m b ∷ cs) ds = omega (arith, sends-append cs ds)
sends-append (streams_done s ∷ cs) ds = sends-append cs ds

-- Two states of a processor that agree in what sending does not touch.
pub record IsSending (p q : Processor) : Type 0 where
  pub native : q.native ≡ p.native
  pub settings : q.user_settings ≡ p.user_settings
  pub active : q.active_stream ≡ p.active_stream
  pub stream : q.stream ≡ p.stream
  pub first_run : q.first_run ≡ p.first_run
  pub shutdown_flag : q.shutdown_flag ≡ p.shutdown_flag
  pub running : q.running ≡ p.running
  pub thread : q.thread ≡ p.thread
  pub no_detach : detaches q.calls ≡ detaches p.calls
  pub no_callback : callbacks q.calls ≡ callbacks p.calls

module _ (E : Env) where
  one-IsSending :
      (bytes : List ℕ) (n : ℕ) (p : Processor)
      → IsSending p (record_send E (message bytes n (prepare E p)) (prepare E p))
  unfolding prepare set_sdds_timestamp
  one-IsSending bytes n p = record {
    native = refl;
    settings = refl;
    active = refl;
    stream = refl;
    first_run = refl;
    shutdown_flag = refl;
    running = refl;
    thread = refl;
    no_detach = rw detaches-append (omega arith);
    no_callback = rw callbacks-append (omega arith);
  }

  IsSending-refl : (p : Processor) → IsSending p p
  IsSending-refl p = ground arith

  IsSending-trans : (p q r : Processor) → IsSending p q → IsSending q r → IsSending p r
  IsSending-trans p q r h k = ground arith

  send_fuel-IsSending :
      (fuel : ℕ) (bytes : List ℕ) (n : ℕ) (p : Processor)
      → IsSending p (send_fuel E fuel bytes n p).0
  unfolding send_fuel
  send_fuel-IsSending zero bytes n p = IsSending-refl p
  send_fuel-IsSending (suc fuel) bytes n p =
      let ready = prepare E p in
      let sent = record_send E (message bytes n ready) ready in
      let left = drop sdds_data_size bytes in
      let rest = send_fuel E fuel left (n - chunk n) sent in
      if_both (λ (r : Processor × Bool). IsSending p r.0) (n == 0) (p, true) _ (IsSending-refl p)
        (if_both (λ (r : Processor × Bool). IsSending p r.0)
          (E.sendmsg ready.calls ready.connection.sock (message bytes n ready)) rest (sent, false)
          (IsSending-trans p sent rest.0 (one-IsSending bytes n p)
            (send_fuel-IsSending fuel left (n - chunk n) sent))
          (one-IsSending bytes n p))

  -- `sendPacket` leaves the stream, the flags and the thread alone, and calls nothing but `sendmsg`.
  pub send_packet-IsSending :
      (bytes : List ℕ) (n : ℕ) (p : Processor) → IsSending p (send_packet E bytes n p).0
  unfolding send_packet
  send_packet-IsSending bytes n p = send_fuel-IsSending (suc n) bytes n p

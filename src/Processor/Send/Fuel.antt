-- ===== src/Processor/Send/Fuel.antt =====
-- The fuel of `sendPacket`: every call sends at least one byte, so a call for each byte is enough.
use sink_sdds.Base.{
  ℕ, zero, suc, ◌-◌, ◌<◌, ◌≡◌, ap, Bool, true, false, List, inl, inr, arith, if◌then◌else◌, ◌==◌,
  Bool-cases, drop,
}
use sink_sdds.Processor.Types.{Env, Processor}
use sink_sdds.Processor.Reading.{sdds_data_size}
use sink_sdds.Processor.Send.{prepare, chunk, message, record_send, send_fuel, send_packet}

module _ (E : Env) where
  -- Two amounts of fuel that are both above the number of bytes give the same result.
  pub send_fuel_irrelevant :
      (f g : ℕ) (bytes : List ℕ) (n : ℕ) (p : Processor)
      → n < f
      → n < g
      → send_fuel E f bytes n p ≡ send_fuel E g bytes n p
  unfolding send_fuel
  send_fuel_irrelevant zero g bytes n p hf hg = absurd (omega arith)
  send_fuel_irrelevant (suc f) zero bytes n p hf hg = absurd (omega arith)
  send_fuel_irrelevant (suc f) (suc g) bytes n p hf hg = elim (Bool-cases (n == 0)) [
    | inl e ↦ rw e
    | inr e ↦ rw (
        send_fuel_irrelevant f g (drop sdds_data_size bytes) (n - chunk n)
          (record_send E (message bytes n (prepare E p)) (prepare E p)) (ground arith)
          (ground arith))
  ]

  -- `sendPacket` is the recursion that the source writes: nothing is done for no bytes; otherwise one
  -- datagram is sent, a refusal ends the call, and what is left is sent by the same method.
  send_packet-recursion :
      (bytes : List ℕ) (n : ℕ) (p : Processor)
      → let ready = prepare E p in
        let m = message bytes n ready in
        let sent = record_send E m ready in
        send_packet E bytes n p ≡ (
          if n == 0
          then (p, true)
          else (if E.sendmsg ready.calls ready.connection.sock m
              then send_packet E (drop sdds_data_size bytes) (n - chunk n) sent
              else (sent, false)))
  unfolding send_packet
  send_packet-recursion bytes n p =
      let ready = prepare E p in
      let m = message bytes n ready in
      let sent = record_send E m ready in
      elim (Bool-cases (n == 0)) [
        | inl e ↦ rw e
        | inr e ↦ rw e (
            ap
              (λ (r : Processor × Bool).
                if E.sendmsg ready.calls ready.connection.sock m then r else (sent, false))
              (send_fuel_irrelevant n (suc (n - chunk n)) (drop sdds_data_size bytes) (n - chunk n)
                sent (ground arith) (omega arith)))
      ]

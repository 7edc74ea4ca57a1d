-- ===== src/Processor/Numbered.antt =====
-- The numbers of all datagrams that a processor of cpp/BulkIOToSDDSProcessor.cpp has handed to the socket
-- since its construction.
use sink_sdds.Base.{
  ℕ, zero, suc, ◌<◌, ◌^◌, ◌≡◌, refl, ap, ◌∙◌, List, [], ◌∷◌, ◌++◌, arith, length, append-nil,
  length-append,
}
use sink_sdds.Processor.Types.{
  Native, Env, Call, attach, detach, push_sri, send, streams_done, Processor,
}
use sink_sdds.Processor.Lifecycle.{Uninitialized, create}
use sink_sdds.Processor.Invariant.{IsInvariant}
use sink_sdds.Processor.Loop.Frame.{sends}
use sink_sdds.Processor.Send.{next_seq, prepare, message, record_send}
use sink_sdds.Processor.Send.Numbering.{after_packets, numbers, next_seq-lt, after_packets-suc}
use sink_sdds.Processor.Send.Delivery.{seq_of, prepare-seq, seq_of-prepare}

-- The numbers in the headers of the datagrams, in the order of the calls of `sendmsg`, refused ones
-- included.
abbrev pub sent_numbers : List Call → List ℕ
sent_numbers [] = []
sent_numbers (send s m b ∷ cs) = seq_of m ∷ sent_numbers cs
sent_numbers (_ ∷ cs) = sent_numbers cs

sent_numbers-append :
    (cs ds : List Call) → sent_numbers (cs ++ ds) ≡ sent_numbers cs ++ sent_numbers ds
sent_numbers-append [] ds = refl
sent_numbers-append (attach t d u ∷ cs) ds = sent_numbers-append cs ds
sent_numbers-append (detach s ∷ cs) ds = sent_numbers-append cs ds
sent_numbers-append (push_sri t s c ∷ cs) ds = sent_numbers-append cs ds
sent_numbers-append (send s m b ∷ cs) ds =
    ap (λ (ns : List ℕ). seq_of m ∷ ns) (sent_numbers-append cs ds)
sent_numbers-append (streams_done s ∷ cs) ds = sent_numbers-append cs ds

-- The numbers are those that start at 0 and leave out the parity packets, without a gap, and the next
-- one follows.
pub record IsNumbered (p : Processor) : Type 0 where
  pub sent : sent_numbers p.calls ≡ numbers (length (sent_numbers p.calls)) 0
  pub next : p.seq ≡ after_packets (length (sent_numbers p.calls)) 0

no_send : (c : Call) → sends (c ∷ []) ≡ 0 → sent_numbers (c ∷ []) ≡ []
no_send (attach t d u) h = refl
no_send (detach s) h = refl
no_send (push_sri t x w) h = refl
no_send (send s m b) h = absurd (omega arith)
no_send (streams_done s) h = refl

numbers-snoc : (k seq : ℕ) → numbers (suc k) seq ≡ numbers k seq ++ after_packets k seq ∷ []
unfolding numbers after_packets
numbers-snoc zero seq = refl
numbers-snoc (suc k) seq =
    ap (λ (ns : List ℕ). seq ∷ ns)
      (numbers-snoc k (next_seq seq)
        ∙ ap (λ (n : ℕ). numbers k (next_seq seq) ++ n ∷ []) (after_packets-suc k seq))

after_packets-lt : (k : ℕ) → after_packets k 0 < 2 ^ 16
unfolding after_packets
after_packets-lt zero = omega arith
after_packets-lt (suc k) = next_seq-lt (after_packets k 0)

sent-IsNumbered :
    (E : Env) (bytes : List ℕ) (n : ℕ) (p : Processor)
    → IsNumbered p
    → IsNumbered (record_send E (message bytes n (prepare E p)) (prepare E p))
unfolding after_packets
sent-IsNumbered E bytes n p v =
    let k : ℕ = length (sent_numbers p.calls) in
    let ready : Processor = prepare E p in
    let bounded : p.seq < 2 ^ 16 = rw v.next (after_packets-lt k) in
    let more : sent_numbers (record_send E (message bytes n ready) ready).calls
        ≡ sent_numbers p.calls ++ p.seq ∷ [] =
      sent_numbers-append ready.calls _
      ∙ rw ((prepare-seq E p).2, seq_of-prepare E bytes n p bounded) refl in
    let count : length (sent_numbers p.calls ++ p.seq ∷ []) ≡ suc k =
      omega (arith, length-append (sent_numbers p.calls) (p.seq ∷ [])) in
    record {
      sent =
          rw (more, count, numbers-snoc k 0)
            (ap (λ (ns : List ℕ). ns ++ p.seq ∷ []) v.sent
              ∙ ap (λ (i : ℕ). numbers k 0 ++ i ∷ []) v.next);
      next = rw (more, count) ((prepare-seq E p).0 ∙ ap next_seq v.next);
    }

pub IsNumbered-IsInvariant : (E : Env) → IsInvariant E IsNumbered
IsNumbered-IsInvariant E = record {
  same = λ p q h n c v. rw (c, n) (record { sent = v.sent; next = v.next });
  called = λ c p unsent v.
      let more = sent_numbers-append p.calls (c ∷ []) in
      let e : sent_numbers (p.calls ++ c ∷ []) ≡ sent_numbers p.calls =
        rw (more, no_send c unsent, append-nil) refl in
      record { sent = rw e v.sent; next = rw e v.next };
  framed = λ h p fits v. record { sent = v.sent; next = v.next };
  sent = λ bytes n p le below v. sent-IsNumbered E bytes n p v;
}

pub create-IsNumbered : (E : Env) (n : Native) (u : Uninitialized) → IsNumbered (create E n u)
unfolding create numbers after_packets
create-IsNumbered E n u = record { sent = refl; next = refl }

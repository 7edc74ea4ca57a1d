-- ===== src/Processor/Loop/Transfer.antt =====
-- The bytes that a processor of cpp/BulkIOToSDDSProcessor.cpp has handed to the socket.
pub mod Blocks
pub mod Streaming
pub mod Protocol
pub mod Marking
pub mod Received
use sink_sdds.Base.{
  ℕ, zero, suc, ◌+◌, ◌*◌, ◌/◌, ◌^◌, ◌≤◌, ◌<◌, ◌≡◌, ◌||◌, refl, sym, subst, ap, ◌∙◌, Bool, true,
  false, none, some, List, [], ◌∷◌, ◌++◌, map, append-nil, append_assoc, arith, if◌then◌else◌,
  if_both, ◌==◌, length, take, take-all,
}
use sink_sdds.Settings.{SddsSettings}
use sink_sdds.Processor.Types.{
  Native, octet, short, float, sizeof, Env, Message, Call, attach, detach, push_sri, send,
  streams_done, Block, Read, Stream, Processor,
}
use sink_sdds.Processor.Template.{set_sdds_header_from_sri}
use sink_sdds.Processor.Reading.{Data, memory, get_data_pointer}
use sink_sdds.Processor.Reading.ByteOrder.{network, AllFit, get_data_pointer_bytes}
use sink_sdds.Processor.Send.{send_packet}
use sink_sdds.Processor.Send.Numbering.{after_packets, next_seq-lt}
use sink_sdds.Processor.Send.Delivery.{payloads, accepted, send_packet-Delivers}
use sink_sdds.Processor.Calls.{call_detach, push_sri_to, annotate}
use sink_sdds.Processor.Loop.{
  shutdown, update_sri, end_of_data, after_send, dispatch, interrupt, body, loop, begin, end_run,
  run_thread,
}
use sink_sdds.Processor.Loop.Frame.{
  detaches, sends, sends-append, detaches-append, send_packet-IsSending,
}
use sink_sdds.Processor.Loop.Ending.{loop-stopped, loop-next}

-- The kinds of the calls.
pub data Kind : Type 0 where
  attaching describing sending detaching calling_back : Kind

abbrev pub kind : Call → Kind
kind (attach t d u) = attaching
kind (detach s) = detaching
kind (push_sri t s c) = describing
kind (send s m b) = sending
kind (streams_done s) = calling_back

abbrev pub kinds : List Call → List Kind
kinds = map kind

-- The payloads of all datagrams that were handed to the socket.
abbrev pub sent_bytes : List Call → List ℕ
sent_bytes [] = []
sent_bytes (send s m b ∷ cs) = m.payload ++ sent_bytes cs
sent_bytes (_ ∷ cs) = sent_bytes cs

pub sent_bytes-append : (cs ds : List Call) → sent_bytes (cs ++ ds) ≡ sent_bytes cs ++ sent_bytes ds
sent_bytes-append [] ds = refl
sent_bytes-append (attach t d u ∷ cs) ds = sent_bytes-append cs ds
sent_bytes-append (detach s ∷ cs) ds = sent_bytes-append cs ds
sent_bytes-append (push_sri t s c ∷ cs) ds = sent_bytes-append cs ds
sent_bytes-append (send s m b ∷ cs) ds =
    ap (λ (bs : List ℕ). m.payload ++ bs) (sent_bytes-append cs ds)
    ∙ sym (append_assoc m.payload (sent_bytes cs) (sent_bytes ds))
sent_bytes-append (streams_done s ∷ cs) ds = sent_bytes-append cs ds

pub sent_bytes-accepted :
    (sock : ℕ) (ms : List Message) → sent_bytes (accepted sock ms) ≡ payloads ms
sent_bytes-accepted sock [] = refl
sent_bytes-accepted sock (m ∷ ms) =
    ap (λ (bs : List ℕ). m.payload ++ bs) (sent_bytes-accepted sock ms)

pub sends-accepted : (sock : ℕ) (ms : List Message) → sends (accepted sock ms) ≡ length ms
sends-accepted sock [] = refl
sends-accepted sock (m ∷ ms) = ap suc (sends-accepted sock ms)

-- From `p` to `q`, `packets` datagrams with these bytes have gone out, and the stream is not let go.
pub record Transfers (bytes : List ℕ) (packets : ℕ) (p q : Processor) : Type 0 where
  pub native : q.native ≡ p.native
  pub settings : q.user_settings ≡ p.user_settings
  pub active : q.active_stream ≡ p.active_stream
  pub flag : q.shutdown_flag ≡ p.shutdown_flag
  pub sent : sent_bytes q.calls ≡ sent_bytes p.calls ++ bytes
  pub count : sends q.calls ≡ sends p.calls + packets
  pub attached : detaches q.calls ≡ detaches p.calls

pub Transfers-trans :
    (front back : List ℕ) (m n : ℕ) (p q r : Processor)
    → Transfers front m p q
    → Transfers back n q r
    → Transfers (front ++ back) (m + n) p r
Transfers-trans front back m n p q r h k = record {
  native = k.native ∙ h.native;
  settings = k.settings ∙ h.settings;
  active = k.active ∙ h.active;
  flag = k.flag ∙ h.flag;
  sent =
      k.sent
      ∙ (ap (λ (l : List ℕ). l ++ back) h.sent ∙ append_assoc (sent_bytes p.calls) front back);
  count = omega (arith, h.count, k.count);
  attached = k.attached ∙ h.attached;
}

-- Nothing goes out.
pub quiet :
    (p q : Processor)
    → q.native ≡ p.native
    → q.user_settings ≡ p.user_settings
    → q.active_stream ≡ p.active_stream
    → q.shutdown_flag ≡ p.shutdown_flag
    → sent_bytes q.calls ≡ sent_bytes p.calls
    → sends q.calls ≡ sends p.calls
    → detaches q.calls ≡ detaches p.calls
    → Transfers [] 0 p q
quiet p q n u a f b s d = record {
  native = n;
  settings = u;
  active = a;
  flag = f;
  sent = b ∙ sym (append-nil (sent_bytes p.calls));
  count = omega arith;
  attached = d;
}

pub quiet_first :
    (bytes : List ℕ) (n : ℕ) (p q r : Processor)
    → Transfers [] 0 p q
    → Transfers bytes n q r
    → Transfers bytes n p r
quiet_first bytes n p q r h k = record {
  native = k.native ∙ h.native;
  settings = k.settings ∙ h.settings;
  active = k.active ∙ h.active;
  flag = k.flag ∙ h.flag;
  sent = k.sent ∙ ap (λ (l : List ℕ). l ++ bytes) (h.sent ∙ append-nil (sent_bytes p.calls));
  count = omega (arith, h.count, k.count);
  attached = k.attached ∙ h.attached;
}

-- The stream and the next number are also as they were.
abbrev pub Announces : Processor → Processor → Type 0
Announces p q = Transfers [] 0 p q × (q.stream ≡ p.stream) × (q.seq ≡ p.seq)

pub push_sri_to-Announces : (p : Processor) → Announces p (push_sri_to none p)
unfolding push_sri_to
push_sri_to-Announces p =
    if_both (Announces p) p.active_stream _ p
      (
        quiet p _ refl refl refl refl
            (sent_bytes-append p.calls _ ∙ append-nil (sent_bytes p.calls))
            (rw sends-append (omega arith)) (rw detaches-append (omega arith)),
        refl,
        refl,
      )
      (quiet p p refl refl refl refl refl refl refl, refl, refl)

-- ===== src/Processor/Datagrams.antt =====
-- The bytes of all datagrams that a processor of cpp/BulkIOToSDDSProcessor.cpp has handed to the socket since
-- its construction.
use sink_sdds.Base.{
  drop, zero, suc, refl, ℕ, ◌+◌, ◌≡◌, List, [], ◌∷◌, ◌++◌, length, length-append, replicate,
  length-replicate, AllBelow, append-AllBelow, take-AllBelow, replicate-AllBelow, arith, sym, subst,
}
use sink_sdds.Packet.Layout.{FitsLayout}
use sink_sdds.Packet.Wire.{encode, length-encode}
use sink_sdds.Packet.Decode.{encode-AllBelow, decode, decode-encode}
use sink_sdds.Processor.Types.{
  Native, Message, Env, Call, attach, detach, push_sri, send, streams_done, Processor,
}
use sink_sdds.Processor.Template.Layout.{prepare-FitsLayout, initialize_sdds_header-FitsLayout}
use sink_sdds.Processor.Reading.{sdds_data_size}
use sink_sdds.Processor.Send.{prepare, chunk, message}
use sink_sdds.Processor.Send.Delivery.{full_chunk, prepare-seq}
use sink_sdds.Processor.Loop.Frame.{sends}
use sink_sdds.Processor.Lifecycle.{Uninitialized, create}
use sink_sdds.Processor.Invariant.{IsInvariant}
use sink_sdds.Processor.Send.Padding.{data_part}

-- What `sendmsg` gathers from the header, the payload and the zeros.
abbrev pub datagram : Message → List ℕ
datagram m = encode m.header ++ data_part m

-- A datagram of 1080 bytes, from which the header can be read, and the data part that follows it.
pub record IsDatagram (m : Message) : Type 0 where
  pub size : length (datagram m) ≡ 1080
  pub bytes : AllBelow 256 (datagram m)
  pub header : decode (datagram m) ≡ m.header
  pub rest : drop 56 (datagram m) ≡ data_part m

-- All that were handed to the socket, refused ones included.
abbrev pub AllDatagrams : List Call → Type 0
AllDatagrams [] = Unit
AllDatagrams (send s m b ∷ cs) = IsDatagram m × AllDatagrams cs
AllDatagrams (_ ∷ cs) = AllDatagrams cs

pub record FitsWire (p : Processor) : Type 0 where
  pub template : FitsLayout p.template
  pub sent : AllDatagrams p.calls

AllDatagrams-append :
    (cs ds : List Call) → AllDatagrams cs → AllDatagrams ds → AllDatagrams (cs ++ ds)
AllDatagrams-append [] ds h k = k
AllDatagrams-append (attach t d u ∷ cs) ds h k = AllDatagrams-append cs ds h k
AllDatagrams-append (detach s ∷ cs) ds h k = AllDatagrams-append cs ds h k
AllDatagrams-append (push_sri t s c ∷ cs) ds h k = AllDatagrams-append cs ds h k
AllDatagrams-append (send s m b ∷ cs) ds h k = (h.0, AllDatagrams-append cs ds h.1 k)
AllDatagrams-append (streams_done s ∷ cs) ds h k = AllDatagrams-append cs ds h k

no_datagram : (c : Call) → sends (c ∷ []) ≡ 0 → AllDatagrams (c ∷ [])
no_datagram (attach t d u) h = tt
no_datagram (detach s) h = tt
no_datagram (push_sri t x w) h = tt
no_datagram (send s m b) h = absurd (omega arith)
no_datagram (streams_done s) h = tt

drop-prefix : (n : ℕ) (xs ys : List ℕ) → length xs ≡ n → drop n (xs ++ ys) ≡ ys
drop-prefix zero [] ys h = refl
drop-prefix zero (x ∷ xs) ys h = absurd (omega arith)
drop-prefix (suc n) [] ys h = absurd (omega arith)
drop-prefix (suc n) (x ∷ xs) ys h = drop-prefix n xs ys (omega arith)

framed_bytes :
    (m : Message)
    → FitsLayout m.header
    → length m.payload + m.padding ≡ sdds_data_size
    → AllBelow 256 m.payload
    → IsDatagram m
framed_bytes m fits full below =
    let rest = m.payload ++ replicate m.padding 0 in
    record {
      size = omega (
        arith,
        full,
        length-append (encode m.header) rest,
        length-append m.payload (replicate m.padding 0),
        length-replicate {A = ℕ} m.padding 0,
        length-encode m.header fits.2.0 fits.2.2,
      );
      bytes = append-AllBelow 256 (encode m.header) rest (encode-AllBelow m.header fits) (
          append-AllBelow 256 m.payload (replicate m.padding 0) below
            (replicate-AllBelow 256 m.padding 0 (omega arith)));
      header = decode-encode m.header rest fits;
      rest = drop-prefix 56 (encode m.header) rest (length-encode m.header fits.2.0 fits.2.2);
    }

pub FitsWire-IsInvariant : (E : Env) → IsInvariant E FitsWire
FitsWire-IsInvariant E = record {
  same = λ p q h n c v. record {
    template = subst FitsLayout (sym h) v.template;
    sent = subst AllDatagrams (sym c) v.sent;
  };
  called = λ c p unsent v. record {
    template = v.template;
    sent = AllDatagrams-append p.calls (c ∷ []) v.sent (no_datagram c unsent);
  };
  framed = λ h p fits v. record { template = fits v.template; sent = v.sent };
  sent = λ bytes n p le below v.
      let ready = prepare E p in
      let fits : FitsLayout ready.template = prepare-FitsLayout E p v.template in
      let m = message bytes n ready in
      let formed : IsDatagram m =
        framed_bytes m fits (full_chunk bytes n le) (take-AllBelow 256 (chunk n) bytes below) in
      record {
        template = fits;
        sent =
            AllDatagrams-append ready.calls _ (subst AllDatagrams (sym (prepare-seq E p).2) v.sent)
              (formed, tt);
      };
}

-- Whatever was in the memory of the object.
pub create-FitsWire :
    (E : Env) (n : Native) (u : Uninitialized) → FitsLayout u.template → FitsWire (create E n u)
unfolding create
create-FitsWire E n u fits = record {
  template = initialize_sdds_header-FitsLayout u.template fits E.floats n;
  sent = tt;
}

-- ===== src/Component/Handover.antt =====
-- What `streamsDone` of cpp/SinkSDDS.cpp does with the stream on deck, according to whether the stream
-- before it was let go.
use sink_sdds.Base.{
  suc, ◌≤◌, ◌≡◌, refl, ap, Bool, true, false, none, some, List, [], ◌∷◌, arith, if◌then◌else◌,
  length,
}
use sink_sdds.Processor.Types.{Native, octet, short, float, Env, Read, Stream, Processor}
use sink_sdds.Processor.Lifecycle.{set_stream, run}
use sink_sdds.Component.{
  Component, proc, with_proc, deck, with_deck, back, stream_is_active, promote, streams_done,
  get_status,
}
use sink_sdds.Component.Decks.{deck_count, active_count, IsSingle}

pub back-length : (s : Stream) (ss : List Stream) → back ss ≡ some s → 1 ≤ length ss
back-length s [] e = absurd (cc)
back-length s (t ∷ ss) e = omega arith

back-none : (ss : List Stream) → length ss ≡ 0 → back ss ≡ none
back-none [] e = refl
back-none (t ∷ ss) e = absurd (omega arith)

set_stream-given :
    (s : Stream) (p : Processor)
    → p.active_stream ≡ false
    → ((set_stream s p).active_stream ≡ true) × ((set_stream s p).stream ≡ s)
unfolding set_stream
set_stream-given s p h = ground arith

set_stream-refused : (s : Stream) (p : Processor) → p.active_stream ≡ true → set_stream s p ≡ p
unfolding set_stream
set_stream-refused s p h = ground arith

pub all_inactive :
    (c : Component)
    → stream_is_active c ≡ false
    → (c.floatproc.active_stream ≡ false)
      × (c.shortproc.active_stream ≡ false)
      × (c.octetproc.active_stream ≡ false)
unfolding stream_is_active
all_inactive c h = ground arith

some_active : (c : Component) → stream_is_active c ≡ true → 1 ≤ active_count c
unfolding stream_is_active
some_active c h = ground arith

module _ (E : Env) (reads : List Read) where
  -- With one stream on deck at most, `streamsDone` takes the branch of its port.
  pub streams_done-promote :
      (n : Native) (s : Stream) (c : Component)
      → deck_count c ≤ 1
      → back (deck n c) ≡ some s
      → streams_done E reads c ≡ promote E reads n s c
  unfolding streams_done
  streams_done-promote float s c h e = rw (e, streams_done)
  streams_done-promote short s c h e =
      rw (
        back-none c.float_on_deck (omega (arith, back-length s c.short_on_deck e)),
        e,
        streams_done,
      )
  streams_done-promote octet s c h e = rw (
    back-none c.float_on_deck (omega (arith, back-length s c.octet_on_deck e)),
    back-none c.short_on_deck (omega (arith, back-length s c.octet_on_deck e)),
    e,
    streams_done,
  )

  promote-stopped :
      (n : Native) (s : Stream) (c : Component)
      → c.started ≡ false
      → promote E reads n s c
        ≡ with_deck n [] (with_proc n (set_stream (record s { enabled = true }) (proc n c)) c)
  unfolding promote
  promote-stopped n s c h =
      ap
        (λ (b : Bool).
          let p = set_stream (record s { enabled = true }) (proc n c) in
          with_deck n [] (with_proc n (if b then run E reads p else p) c))
        h

  -- While the component is stopped, no stream is active and one stream is on deck, `streamsDone` makes
  -- it, enabled again, the stream of its processor, which is then the only active one: the status names
  -- it as the current stream, and no stream is on deck.
  pub streams_done-promotes :
      (n : Native) (s : Stream) (c : Component)
      → c.started ≡ false
      → stream_is_active c ≡ false
      → deck_count c ≤ 1
      → back (deck n c) ≡ some s
      → let d = streams_done E reads c in
        ((proc n d).stream ≡ record s { enabled = true })
        × ((get_status d).current_stream ≡ s.stream_id)
        × ((get_status d).stream_on_deck ≡ "")
        × (active_count d ≡ 1)
        × (deck_count d ≡ 0)
  unfolding get_status
  streams_done-promotes octet s c stopped idle one e =
      rw (streams_done-promote octet s c one e, promote-stopped octet s c stopped)
        (
          (set_stream-given (record s { enabled = true }) c.octetproc off.2).1,
          ground
              (arith, all_inactive c, set_stream-given (record s { enabled = true }) c.octetproc),
          ground (
            arith,
            back-none c.float_on_deck (omega (arith, back-length s c.octet_on_deck e)),
            back-none c.short_on_deck (omega (arith, back-length s c.octet_on_deck e)),
          ),
          ground
              (arith, all_inactive c, set_stream-given (record s { enabled = true }) c.octetproc),
          omega (arith, back-length s c.octet_on_deck e),
        )
    where
      off :
          (c.floatproc.active_stream ≡ false)
          × (c.shortproc.active_stream ≡ false)
          × (c.octetproc.active_stream ≡ false)
      off = all_inactive c idle
  streams_done-promotes short s c stopped idle one e =
      rw (streams_done-promote short s c one e, promote-stopped short s c stopped)
        (
          (set_stream-given (record s { enabled = true }) c.shortproc off.1).1,
          ground
              (arith, all_inactive c, set_stream-given (record s { enabled = true }) c.shortproc),
          ground (
            arith,
            back-none c.float_on_deck (omega (arith, back-length s c.short_on_deck e)),
            back-none c.octet_on_deck (omega (arith, back-length s c.short_on_deck e)),
          ),
          ground
              (arith, all_inactive c, set_stream-given (record s { enabled = true }) c.shortproc),
          omega (arith, back-length s c.short_on_deck e),
        )
    where
      off :
          (c.floatproc.active_stream ≡ false)
          × (c.shortproc.active_stream ≡ false)
          × (c.octetproc.active_stream ≡ false)
      off = all_inactive c idle
  streams_done-promotes float s c stopped idle one e =
      rw (streams_done-promote float s c one e, promote-stopped float s c stopped)
        (
          (set_stream-given (record s { enabled = true }) c.floatproc off.0).1,
          ground
              (arith, all_inactive c, set_stream-given (record s { enabled = true }) c.floatproc),
          ground (
            arith,
            back-none c.short_on_deck (omega (arith, back-length s c.float_on_deck e)),
            back-none c.octet_on_deck (omega (arith, back-length s c.float_on_deck e)),
          ),
          ground
              (arith, all_inactive c, set_stream-given (record s { enabled = true }) c.floatproc),
          omega (arith, back-length s c.float_on_deck e),
        )
    where
      off :
          (c.floatproc.active_stream ≡ false)
          × (c.shortproc.active_stream ≡ false)
          × (c.octetproc.active_stream ≡ false)
      off = all_inactive c idle

  -- While the component is stopped, one stream is on deck and the processor of its port still holds an
  -- active stream, `streamsDone` takes the stream off the deck and gives it to nobody: the processors
  -- stay as they are and no stream is on deck.
  pub streams_done-loses :
      (n : Native) (s : Stream) (c : Component)
      → c.started ≡ false
      → deck_count c ≤ 1
      → back (deck n c) ≡ some s
      → (proc n c).active_stream ≡ true
      → let d = streams_done E reads c in
        (d.floatproc ≡ c.floatproc)
        × (d.shortproc ≡ c.shortproc)
        × (d.octetproc ≡ c.octetproc)
        × (deck_count d ≡ 0)
  streams_done-loses octet s c stopped one e held =
      rw (streams_done-promote octet s c one e, promote-stopped octet s c stopped)
        (
          refl,
          refl,
          set_stream-refused _ c.octetproc held,
          omega (arith, back-length s c.octet_on_deck e),
        )
  streams_done-loses short s c stopped one e held =
      rw (streams_done-promote short s c one e, promote-stopped short s c stopped)
        (
          refl,
          set_stream-refused _ c.shortproc held,
          refl,
          omega (arith, back-length s c.short_on_deck e),
        )
  streams_done-loses float s c stopped one e held =
      rw (streams_done-promote float s c one e, promote-stopped float s c stopped)
        (
          set_stream-refused _ c.floatproc held,
          refl,
          refl,
          omega (arith, back-length s c.float_on_deck e),
        )

  -- While the component is stopped, one stream is on deck, its port has no active stream but another
  -- port has, `streamsDone` makes the stream on deck active beside the other: one more processor is
  -- active than before, and so more than one.
  streams_done-doubles :
      (n : Native) (s : Stream) (c : Component)
      → c.started ≡ false
      → deck_count c ≤ 1
      → back (deck n c) ≡ some s
      → stream_is_active c ≡ true
      → (proc n c).active_stream ≡ false
      → (active_count (streams_done E reads c) ≡ suc (active_count c))
        × ¬ IsSingle (streams_done E reads c)
  streams_done-doubles n s c stopped one e busy free =
      (more, λ v. omega (arith, more, some_active c busy, v.one_active))
    where
      promoted :
          (m : Native)
          → (proc m c).active_stream ≡ false
          → active_count
              (with_deck m [] (with_proc m (set_stream (record s { enabled = true }) (proc m c)) c))
            ≡ suc (active_count c)
      promoted octet h = ground (arith, set_stream-given (record s { enabled = true }) c.octetproc)
      promoted short h = ground (arith, set_stream-given (record s { enabled = true }) c.shortproc)
      promoted float h = ground (arith, set_stream-given (record s { enabled = true }) c.floatproc)

      more : active_count (streams_done E reads c) ≡ suc (active_count c)
      more = rw (streams_done-promote n s c one e, promote-stopped n s c stopped) (promoted n free)

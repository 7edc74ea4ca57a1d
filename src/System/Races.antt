-- ===== src/System/Races.antt =====
-- Streams that arrive between the end of a thread and its callback, which streamsDone of cpp/SinkSDDS.cpp serves.
use sink_sdds.Base.{
  suc, ◌≤◌, ◌<◌, ◌≡◌, ◌≢◌, refl, sym, ap, ◌∙◌, true, false, some, List, [], ◌∷◌, arith, if_both,
}
use sink_sdds.Processor.Types.{Native, octet, short, float, Env, Read, Stream, null, Processor}
use sink_sdds.Processor.Lifecycle.{set_stream, run}
use sink_sdds.Processor.Lifecycle.Restart.{run-launch, launch-IsLaunched, set_stream-IsGiven}
use sink_sdds.Component.{
  Component, proc, with_proc, deck, back, give, stream_is_active, new_stream, promote, streams_done,
}
use sink_sdds.Component.Decks.{active_count, new_stream-waits, new_stream-idle}
use sink_sdds.Component.Handover.{streams_done-promote, all_inactive}
use sink_sdds.System.Attended.{give-Forward, same_processors}
use sink_sdds.System.{System, called_back, Reach, here, next, arrives, calls_back}

none_active :
    (n : Native) (c : Component) → stream_is_active c ≡ false → (proc n c).active_stream ≡ false
none_active octet c h = (all_inactive c h).2
none_active short c h = (all_inactive c h).1
none_active float c h = (all_inactive c h).0

other : (m n : Native) (q : Processor) (c : Component) → m ≢ n → proc n (with_proc m q c) ≡ proc n c
other octet octet q c d = absurd (d refl)
other octet short q c d = refl
other octet float q c d = refl
other short octet q c d = refl
other short short q c d = absurd (d refl)
other short float q c d = refl
other float octet q c d = refl
other float short q c d = refl
other float float q c d = absurd (d refl)

one_is_active :
    (n : Native) (c : Component) → (proc n c).active_stream ≡ true → stream_is_active c ≡ true
unfolding stream_is_active
one_is_active octet c h = ground arith
one_is_active short c h = ground arith
one_is_active float c h = ground arith

two_active :
    (m n : Native) (c : Component)
    → m ≢ n
    → (proc m c).active_stream ≡ true
    → (proc n c).active_stream ≡ true
    → 2 ≤ active_count c
two_active octet octet c d h k = absurd (d refl)
two_active octet short c d h k = ground arith
two_active octet float c d h k = ground arith
two_active short octet c d h k = ground arith
two_active short short c d h k = absurd (d refl)
two_active short float c d h k = ground arith
two_active float octet c d h k = ground arith
two_active float short c d h k = ground arith
two_active float float c d h k = absurd (d refl)

with_active :
    (n : Native) (q : Processor) (c : Component)
    → q.active_stream ≡ true
    → (proc n (with_proc n q c)).active_stream ≡ true
with_active octet q c h = h
with_active short q c h = h
with_active float q c h = h

module _ (E : Env) (rs : List Read) where
  -- A processor without a thread and a stream that is given one.
  given-active :
      (n : Native) (x : Stream) (c : Component)
      → (proc n c).thread ≡ null
      → (proc n c).active_stream ≡ false
      → (proc n (give E rs n x c)).active_stream ≡ true
  given-active n x c idle free =
      let taken = set_stream-IsGiven E x (proc n c) free in
      let p : Processor = set_stream x (proc n c) in
      with_active n _ c (
        if_both (λ (q : Processor). q.active_stream ≡ true) c.started (run E rs p) p
          (rw (run-launch E rs p (taken.thread ∙ idle) taken.active)
            ((launch-IsLaunched E p).active ∙ taken.active))
          taken.active)

  promote-count :
      (n : Native) (x : Stream) (c : Component)
      → active_count (promote E rs n x c)
        ≡ active_count (give E rs n (record x { enabled = true }) c)
  unfolding promote
  promote-count octet x c = refl
  promote-count short x c = refl
  promote-count float x c = refl

  same_proc :
      (n : Native) (c d : Component)
      → d.floatproc ≡ c.floatproc
      → d.shortproc ≡ c.shortproc
      → d.octetproc ≡ c.octetproc
      → proc n d ≡ proc n c
  same_proc octet c d f h o = o
  same_proc short c d f h o = h
  same_proc float c d f h o = f

  back_of :
      (n : Native) (y : Stream) (c : Component)
      → deck n c ≡ record y { enabled = false } ∷ []
      → back (deck n c) ≡ some (record y { enabled = false })
  back_of n y c e = ap back e

  -- A callback while another processor holds a stream and one is on deck.
  promoted-two :
      (m n : Native) (x : Stream) (c : Component)
      → m ≢ n
      → (proc m c).active_stream ≡ true
      → (proc n c).active_stream ≡ false
      → (proc n c).thread ≡ null
      → 2 ≤ active_count (promote E rs n x c)
  promoted-two m n x c differ active free idle =
      let y : Stream = record x { enabled = true } in
      rw (promote-count n x c) (
        two_active m n (give E rs n y c) differ
          (ap (λ (q : Processor). q.active_stream) (other n m _ c (λ e. differ (sym e))) ∙ active)
          (given-active n y c idle free))

  -- No stream is active, and the callback of a thread that has ended is still to be served. Then two
  -- streams can become active: a stream that arrives is made active, a second one on another port goes on
  -- deck, and the callback makes the second one active as well. The processors of the two ports have no
  -- thread before.
  pub callback-doubles :
      (m n : Native) (x y : Stream) (s : System)
      → m ≢ n
      → s.handled < called_back s.component
      → stream_is_active s.component ≡ false
      → (proc m s.component).thread ≡ null
      → (proc n s.component).thread ≡ null
      → (t : System) × Reach E s t × (2 ≤ active_count t.component)
  callback-doubles m n x y s differ pending idle free_m free_n =
      let c : Component = s.component in
      let first : Component = give E rs m x c in
      let second : Component = new_stream E rs n y first in
      let forward = give-Forward E rs m x c in
      let held = given-active m x c free_m (none_active m c idle) in
      let (on_deck, one, _, _, f, h, o) =
        new_stream-waits E rs n y first (one_is_active m first held) in
      let apart : proc n second ≡ proc n c =
        same_proc n first second f h o ∙ other m n _ c differ in
      (
        record s { component = streams_done E rs second; handled = suc s.handled },
        next
            (next
              (next here (
                arrives m rs x (
                  ap (λ (d : Component). record s { component = d })
                    (sym (new_stream-idle E rs m x c idle)))))
              (arrives n rs y refl))
            (calls_back rs (omega (arith, (same_processors first second f h o).0, forward)) refl),
        rw
            (streams_done-promote E rs n (record y { enabled = false }) second (omega (arith, one))
              (back_of n y second on_deck))
            (promoted-two m n (record y { enabled = false }) second differ
              (ap (λ (q : Processor). q.active_stream) (same_proc m first second f h o) ∙ held)
              (ap (λ (q : Processor). q.active_stream) apart ∙ none_active n c idle)
              (ap (λ (q : Processor). q.thread) apart ∙ free_n)),
      )

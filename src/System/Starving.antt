-- ===== src/System/Starving.antt =====
-- A stream that arrives while `start` of cpp/SinkSDDS.cpp is running the processors: `start` holds no lock,
-- and the framework's flag is set last.
use sink_sdds.Base.{
  ◌≡◌, refl, sym, subst, ap, ◌∙◌, Bool, true, false, List, ◌&&◌, arith, if◌then◌else◌,
}
use sink_sdds.Processor.Types.{octet, short, float, Env, Read, Stream, Thread, null, Processor}
use sink_sdds.Processor.Lifecycle.{
  has_thread, join, launch, run, set_stream, set_connection, set_sdds_settings,
  set_override_header_settings, set_attach_settings,
}
use sink_sdds.Processor.Lifecycle.Restart.{set_stream-IsGiven}
use sink_sdds.Component.{Component, with_proc, stream_is_active, new_stream}
use sink_sdds.Component.Decks.{new_stream-idle}
use sink_sdds.Component.Handover.{all_inactive}
use sink_sdds.Component.Session.{configure, connect_and_run, setup_socket, usable}
use sink_sdds.Component.Session.Lifetime.{setup_socket-IsKept}
use sink_sdds.Sockets.{Os}
use sink_sdds.System.{
  System, configured, at_rest, run_short, run_float, set_started, octet_first, short_second,
  float_third, Reach, here, next, arrives, starts, runs, started,
}

-- A processor with neither a thread nor a stream.
record IsFree (p : Processor) : Type 0 where
  thread : p.thread ≡ null
  active : p.active_stream ≡ false

configure-active : (c : Component) (p : Processor) → (configure c p).active_stream ≡ p.active_stream
unfolding configure set_sdds_settings set_override_header_settings set_attach_settings
configure-active c p = ground arith

configure-IsFree : (c : Component) (p : Processor) → IsFree p → IsFree (configure c p)
unfolding configure set_sdds_settings set_override_header_settings set_attach_settings
configure-IsFree c p h = ground arith

still_inactive :
    (c : Component)
    → c.floatproc.active_stream ≡ false
    → c.shortproc.active_stream ≡ false
    → c.octetproc.active_stream ≡ false
    → stream_is_active c ≡ false
unfolding stream_is_active
still_inactive c f s o = ground arith

module _ (E : Env) (rs : List Read) where
  run-IsFree : (p : Processor) → IsFree p → run E rs p ≡ p
  unfolding run
  run-IsFree p h =
      ap
        (λ (t : Thread).
          let ready = (if has_thread t then join E rs p else p) in
          if has_thread t && p.running
          then p
          else (if ready.active_stream then launch E ready else ready))
        h.thread
      ∙ ap (λ (b : Bool). if b then launch E p else p) h.active

  connect_and_run-IsFree :
      (c : Component) (p : Processor) → IsFree p → IsFree (connect_and_run E rs c p)
  unfolding connect_and_run set_connection
  connect_and_run-IsFree c p h =
      let q : Processor = record p { connection = c.connection; vlan = c.network_settings.vlan } in
      let free : IsFree q = record { thread = h.thread; active = h.active } in
      rw (run-IsFree q free) free

  -- While the component is stopped and no stream is active, `start` is called and opens a usable socket.
  -- If a stream arrives on the octet port after `start` has run that processor, then `start` ends with
  -- the component started, the stream active on that processor, and no thread to process it. The octet
  -- processor has no thread before.
  pub start-starves :
      (os : Os) (x : Stream) (s : System)
      → s.control ≡ at_rest
      → s.component.started ≡ false
      → usable (setup_socket os (configured s.component)).1 ≡ true
      → stream_is_active s.component ≡ false
      → s.component.octetproc.thread ≡ null
      → (t : System) × Reach E s t
        × (t.control ≡ at_rest)
        × (t.component.started ≡ true)
        × (t.component.octetproc.active_stream ≡ true)
        × (t.component.octetproc.stream ≡ x)
        × (t.component.octetproc.thread ≡ null)
  start-starves os x s rest stopped opened idle no_thread =
      let c : Component = s.component in
      let ready : Component = (setup_socket os (configured c)).0 in
      let kept = setup_socket-IsKept os (configured c) in
      let off = all_inactive c idle in
      let free : IsFree ready.octetproc =
        subst IsFree (sym kept.3)
          (configure-IsFree c c.octetproc (record { thread = no_thread; active = off.2 })) in
      let p : Processor = connect_and_run E rs ready ready.octetproc in
      let ran : IsFree p = connect_and_run-IsFree ready ready.octetproc free in
      let first : Component = with_proc octet p ready in
      let first_stopped : first.started ≡ false = kept.0 ∙ stopped in
      let quiet : stream_is_active first ≡ false =
        still_inactive first
          (ap (λ (q : Processor). q.active_stream) kept.1
            ∙ (configure-active c c.floatproc ∙ off.0))
          (ap (λ (q : Processor). q.active_stream) kept.2
            ∙ (configure-active c c.shortproc ∙ off.1))
          ran.active in
      let taken = set_stream-IsGiven E x p ran.active in
      let second : Component = with_proc octet (set_stream x p) first in
      let arrival : new_stream E rs octet x first ≡ second =
        new_stream-idle E rs octet x first quiet
        ∙ ap
            (λ (b : Bool).
              with_proc octet (if b then run E rs (set_stream x p) else set_stream x p) first)
            first_stopped in
      let third : Component =
        with_proc short (connect_and_run E rs second second.shortproc) second in
      let fourth : Component = with_proc float (connect_and_run E rs third third.floatproc) third in
      (
        record s { component = record fourth { started = true }; control = at_rest },
        next
            (next
              (next
                (next
                  (next (next here (starts os rest stopped opened refl))
                    (runs octet run_short rs octet_first refl))
                  (arrives octet rs x (
                    ap (λ (d : Component). record s { component = d; control = run_short })
                      (sym arrival))))
                (runs short run_float rs short_second refl))
              (runs float set_started rs float_third refl))
            (started refl refl),
        refl,
        refl,
        taken.active,
        taken.taken,
        taken.thread ∙ ran.thread,
      )

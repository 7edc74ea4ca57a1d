-- ===== src/Processor/Lifecycle/Restart.antt =====
-- What `shutdown` does to a processor that has no thread, as `stop` calls it on all three.
use sink_sdds.Base.{
  ◌≡◌, refl, ap, ◌∙◌, Bool, true, false, ◌&&◌, List, none, arith, if◌then◌else◌, if_both, if_split,
  sym, ◌≢◌,
}
use sink_sdds.Processor.Types.{Env, Read, Stream, Thread, null, spawned, Processor}
use sink_sdds.Processor.Calls.{call_attach}
use sink_sdds.Processor.Loop.{shutdown, begin, end_run, run_thread}
use sink_sdds.Processor.Loop.Frame.{sends, sends-append}
use sink_sdds.Processor.Loop.Ending.{loop-stopped}
use sink_sdds.Processor.Lifecycle.{complete, has_thread, join, launch, run, set_stream}

module _ (E : Env) where
  -- The thread of a run that finds `m_shutdown` set.
  run_thread-stopped :
      (reads : List Read) (p : Processor)
      → p.shutdown_flag ≡ true
      → run_thread E reads p ≡ end_run (begin p)
  unfolding run_thread begin
  run_thread-stopped reads p h = ap end_run (loop-stopped E reads (begin p) h)

  join-null :
      (reads : List Read) (p : Processor)
      → p.thread ≡ null
      → join E reads p ≡ record p { thread = null }
  unfolding join
  join-null reads p h = ap (λ (t : Thread). record (complete E reads t p) { thread = null }) h

  -- A processor that has no thread and holds a stream is launched.
  pub run-launch :
      (reads : List Read) (p : Processor)
      → p.thread ≡ null
      → p.active_stream ≡ true
      → run E reads p ≡ launch E p
  unfolding run
  run-launch reads p h a =
      ap
        (λ (t : Thread).
          let ready = (if has_thread t then join E reads p else p) in
          if has_thread t && p.running
          then p
          else (if ready.active_stream then launch E ready else ready))
        h
      ∙ ap (λ (b : Bool). if b then launch E p else p) a

  launch-thread : (p : Processor) → (launch E p).thread ≡ spawned
  unfolding launch
  launch-thread p = refl

  -- What launching does not touch.
  pub record IsLaunched (p q : Processor) : Type 0 where
    pub flag : q.shutdown_flag ≡ p.shutdown_flag
    pub active : q.active_stream ≡ p.active_stream
    pub stream : q.stream ≡ p.stream
    pub no_send : sends q.calls ≡ sends p.calls

  call_attach-IsLaunched : (p : Processor) → IsLaunched p (call_attach E none p)
  unfolding call_attach
  call_attach-IsLaunched p =
      if_both (λ q. IsLaunched p q) p.active_stream _ p
        (record {
          flag = refl;
          active = refl;
          stream = refl;
          no_send = rw sends-append (omega arith);
        })
        (record { flag = refl; active = refl; stream = refl; no_send = refl })

  pub launch-IsLaunched : (p : Processor) → IsLaunched p (launch E p)
  unfolding launch
  launch-IsLaunched p =
      let attached = call_attach-IsLaunched p in
      record {
        flag = attached.flag;
        active = attached.active;
        stream = attached.stream;
        no_send = attached.no_send;
      }

  -- A processor that holds no stream takes the one that it is given.
  pub record IsGiven (s : Stream) (p q : Processor) : Type 0 where
    pub taken : q.stream ≡ s
    pub active : q.active_stream ≡ true
    pub thread : q.thread ≡ p.thread
    pub flag : q.shutdown_flag ≡ p.shutdown_flag
    pub calls : q.calls ≡ p.calls

  pub set_stream-IsGiven :
      (s : Stream) (p : Processor) → p.active_stream ≡ false → IsGiven s p (set_stream s p)
  unfolding set_stream
  set_stream-IsGiven s p h =
      if_split (λ (q : Processor). IsGiven s p q) p.active_stream p _ (λ e. absurd (ne (sym e ∙ h)))
        (λ _. record { taken = refl; active = refl; thread = refl; flag = refl; calls = refl })
    where
      ne : true ≢ false
      ne e = cc

  -- A processor has no thread and no stream when the component is stopped. When it is then given a
  -- stream and run, a thread is started that ends at once: it sends nothing, whatever the stream holds,
  -- and the stream stays active without being processed.
  pub run-after_idle_stop :
      (p : Processor) (s : Stream) (at_stop at_run reads : List Read)
      → p.thread ≡ null
      → p.active_stream ≡ false
      → let launched = run E at_run (set_stream s (join E at_stop (shutdown p))) in
        let done = run_thread E reads launched in
        (launched.thread ≡ spawned)
        × (sends done.calls ≡ sends p.calls)
        × (done.active_stream ≡ true)
        × (done.stream ≡ s)
  unfolding shutdown
  run-after_idle_stop p s at_stop at_run reads idle none_active =
      rw
        (
          join-null at_stop (record p { shutdown_flag = true }) idle,
          run-launch at_run (set_stream s stopped) given.thread given.active,
          run_thread-stopped reads (launch E (set_stream s stopped)) (launched.flag ∙ given.flag),
        )
        (
          launch-thread (set_stream s stopped),
          unfold end_run begin in
              rw sends-append (omega (arith, launched.no_send, ap sends given.calls)),
          unfold end_run begin in launched.active ∙ given.active,
          unfold end_run begin in launched.stream ∙ given.taken,
        )
    where
      stopped : Processor
      stopped = record p { shutdown_flag = true; thread = null }

      given : IsGiven s stopped (set_stream s stopped)
      given = set_stream-IsGiven s stopped none_active

      launched : IsLaunched (set_stream s stopped) (launch E (set_stream s stopped))
      launched = launch-IsLaunched (set_stream s stopped)

-- ===== src/Processor/Moves/Active.antt =====
-- When a processor of cpp/BulkIOToSDDSProcessor.cpp holds a stream: only a stream that is set makes it active.
use text.Mathlib.Text.{◌==◌ as str_eq}
use sink_sdds.Base.{
  ◌≤◌, ◌≡◌, refl, sym, subst, ap, String, Option, true, ◌&&◌, List, none, arith, if◌then◌else◌,
  if_both,
}
use sink_sdds.Processor.Types.{
  Env, Read, Stream, Thread, null, spawned, testing, reading, finished, Processor,
}
use sink_sdds.Processor.Calls.{call_attach, push_sri_to}
use sink_sdds.Processor.Loop.{loop, resume, begin, end_run, run_thread, shutdown}
use sink_sdds.Processor.Loop.Ending.{as_number, IsBalanced, body-IsBalanced, loop-IsBalanced}
use sink_sdds.Processor.Loop.Resume.{resume-IsBalanced}
use sink_sdds.Processor.Lifecycle.{complete, has_thread, join, launch, run, remove_stream}
use sink_sdds.Processor.Moves.{Move, begins, leaves, enters, reads}

-- `q` holds a stream only if `p` does.
abbrev pub AtMost : Processor → Processor → Type 0
AtMost p q = as_number q.active_stream ≤ as_number p.active_stream

AtMost-same : (p q : Processor) → q.active_stream ≡ p.active_stream → AtMost p q
AtMost-same p q e = rw e (omega arith)

pub push_sri_to-AtMost : (target : Option String) (p : Processor) → AtMost p (push_sri_to target p)
unfolding push_sri_to
push_sri_to-AtMost target p = if_both (AtMost p) p.active_stream _ p (omega arith) (omega arith)

module _ (E : Env) where
  balanced-AtMost : (p q : Processor) → IsBalanced p q → AtMost p q
  balanced-AtMost p q h = omega (arith, h.same_held, h.grows)

  end_run-active : (p : Processor) → (end_run p).active_stream ≡ p.active_stream
  unfolding end_run
  end_run-active p = refl

  complete-AtMost : (rs : List Read) (t : Thread) (p : Processor) → AtMost p (complete E rs t p)
  unfolding complete run_thread begin
  complete-AtMost rs null p = omega arith
  complete-AtMost rs spawned p =
      rw (end_run-active (loop E rs (begin p)))
        (balanced-AtMost (begin p) _ (loop-IsBalanced E rs (begin p)))
  complete-AtMost rs testing p =
      rw (end_run-active (loop E rs p)) (balanced-AtMost p _ (loop-IsBalanced E rs p))
  complete-AtMost rs reading p =
      rw (end_run-active (resume E rs p)) (balanced-AtMost p _ (resume-IsBalanced E rs p))
  complete-AtMost rs finished p = omega arith

  pub join-AtMost : (rs : List Read) (p : Processor) → AtMost p (join E rs p)
  unfolding join
  join-AtMost rs p = complete-AtMost rs p.thread p

  call_attach-active : (p : Processor) → (call_attach E none p).active_stream ≡ p.active_stream
  unfolding call_attach
  call_attach-active p =
      if_both (λ (q : Processor). q.active_stream ≡ p.active_stream) p.active_stream _ p refl refl

  launch-active : (p : Processor) → (launch E p).active_stream ≡ p.active_stream
  unfolding launch
  launch-active p = call_attach-active p

  launch-AtMost : (p : Processor) → AtMost p (launch E p)
  launch-AtMost p = rw (launch-active p) (omega arith)

  -- Running never makes a stream active.
  pub run-AtMost : (rs : List Read) (p : Processor) → AtMost p (run E rs p)
  unfolding run
  run-AtMost rs p =
      let ready : Processor = (if has_thread p.thread then join E rs p else p) in
      let lowered : AtMost p ready =
        if_both (λ q. AtMost p q) (has_thread p.thread) _ p (join-AtMost rs p) (omega arith) in
      let launched : AtMost p (launch E ready) = omega (arith, launch-AtMost ready) in
      if_both (λ q. AtMost p q) (has_thread p.thread && p.running) p _ (omega arith)
        (if_both (λ q. AtMost p q) ready.active_stream (launch E ready) ready launched lowered)

  pub remove_stream-AtMost :
      (rs : List Read) (x : Stream) (p : Processor) → AtMost p (remove_stream E rs x p)
  unfolding remove_stream shutdown
  remove_stream-AtMost rs x p =
      if_both (AtMost p) (p.active_stream && str_eq p.stream.stream_id x.stream_id) _ p
        (if_both (AtMost p) p.running _ p (join-AtMost rs (record p { shutdown_flag = true }))
          (omega arith))
        (omega arith)

  pub Move-AtMost : (p q : Processor) → Move E p q → AtMost p q
  unfolding begin end_run
  Move-AtMost p q (begins h e) = AtMost-same p q (ap (λ (x : Processor). x.active_stream) e)
  Move-AtMost p q (leaves h flag e) = AtMost-same p q (ap (λ (x : Processor). x.active_stream) e)
  Move-AtMost p q (enters h flag e) = AtMost-same p q (ap (λ (x : Processor). x.active_stream) e)
  Move-AtMost p q (reads r h e) = subst (AtMost p) (sym e) (
      balanced-AtMost (record p { thread = testing }) _
        (body-IsBalanced E r (record p { thread = testing })))

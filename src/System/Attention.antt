-- ===== src/System/Attention.antt =====
-- No step of a processor takes away what will serve a stream on deck.
use text.Mathlib.Text.{◌==◌ as str_eq}
use sink_sdds.Base.{
  ℕ, suc, ◌+◌, ◌≤◌, ◌≡◌, refl, String, true, false, ◌&&◌, ◌||◌, Option, none, Bool-cases, inl, inr,
  ap, ◌∙◌, List, [], ◌∷◌, arith, if◌then◌else◌, if_both,
}
use sink_sdds.Processor.Types.{
  Env, Read, Stream, Thread, null, spawned, testing, reading, finished, attach, push_sri,
  streams_done, Processor,
}
use sink_sdds.Processor.Calls.{call_attach, stream_definition, annotate, push_sri_to}
use sink_sdds.Processor.Loop.{shutdown, loop, resume, begin, end_run}
use sink_sdds.Processor.Loop.Frame.{callbacks, callbacks-append}
use sink_sdds.Processor.Loop.Ending.{as_number, body-IsBalanced, loop-IsBalanced, run_thread_lem}
use sink_sdds.Processor.Lifecycle.{
  complete, has_thread, join, launch, run, set_stream, remove_stream,
}
use sink_sdds.Processor.Loop.Resume.{resume-IsBalanced}
use sink_sdds.Processor.Moves.{Move, begins, leaves, enters, reads}
use sink_sdds.Processor.Moves.Runs.{body-Keeps}
use sink_sdds.Component.Session.Lifetime.{is_alive}

-- 1 if the processor holds a stream or has a thread that will call the parent back.
abbrev pub busy : Processor → ℕ
busy p = as_number (p.active_stream || is_alive p.thread)

pub record Advances (p q : Processor) : Type 0 where
  pub more_calls : callbacks p.calls ≤ callbacks q.calls
  pub attention : busy p + callbacks p.calls ≤ busy q + callbacks q.calls

pub Advances-same :
    (p q : Processor)
    → q.active_stream ≡ p.active_stream
    → q.thread ≡ p.thread
    → callbacks q.calls ≡ callbacks p.calls
    → Advances p q
Advances-same p q a t c = ground arith

pub Advances-trans : (p q r : Processor) → Advances p q → Advances q r → Advances p r
Advances-trans p q r f g = omega arith

busy-le : (p : Processor) → busy p ≤ 1
busy-le p = ground arith

-- One more callback is worth as much as being busy.
called-Advances : (p q : Processor) → callbacks q.calls ≡ suc (callbacks p.calls) → Advances p q
called-Advances p q h = omega (arith, busy-le p)

-- A processor with a thread that is not over is busy.
alive-Advances :
    (p q : Processor) (t : Thread)
    → q.thread ≡ t
    → is_alive t ≡ true
    → callbacks q.calls ≡ callbacks p.calls
    → Advances p q
alive-Advances p q t e a c =
    let alive : is_alive q.thread ≡ true = ap is_alive e ∙ a in ground (arith, busy-le p)

pub set_stream-Advances : (x : Stream) (p : Processor) → Advances p (set_stream x p)
unfolding set_stream
set_stream-Advances x p = ground arith

pub push_sri_to-Advances :
    (target : Option String) (p : Processor) → Advances p (push_sri_to target p)
unfolding push_sri_to
push_sri_to-Advances target p =
    ground (arith, callbacks-append p.calls (push_sri target (annotate p) p.current_time ∷ []))

module _ (E : Env) where
  call_attach-callbacks :
      (p : Processor) → callbacks (call_attach E none p).calls ≡ callbacks p.calls
  unfolding call_attach
  call_attach-callbacks p = ground (
    arith,
    callbacks-append p.calls (attach none (stream_definition E p) p.attach_settings.user_id ∷ []),
  )

  launch-Advances : (p : Processor) → Advances p (launch E p)
  unfolding launch
  launch-Advances p = ground (arith, call_attach-callbacks p, busy-le p)

  end_run-callbacks : (p : Processor) → callbacks (end_run p).calls ≡ suc (callbacks p.calls)
  unfolding end_run
  end_run-callbacks p =
      omega (arith, callbacks-append p.calls (streams_done p.stream.stream_id ∷ []))

  complete-callbacks :
      (rs : List Read) (t : Thread) (p : Processor)
      → is_alive t ≡ true
      → callbacks (complete E rs t p).calls ≡ suc (callbacks p.calls)
  unfolding complete
  complete-callbacks rs null p h = absurd (cc)
  complete-callbacks rs spawned p h = (run_thread_lem E rs p).4
  complete-callbacks rs testing p h =
      omega (arith, end_run-callbacks (loop E rs p), (loop-IsBalanced E rs p).same_callbacks)
  complete-callbacks rs reading p h =
      omega (arith, end_run-callbacks (resume E rs p), (resume-IsBalanced E rs p).same_callbacks)
  complete-callbacks rs finished p h = absurd (cc)

  pub complete-over :
      (rs : List Read) (t : Thread) (p : Processor) → is_alive t ≡ false → complete E rs t p ≡ p
  unfolding complete
  complete-over rs null p h = refl
  complete-over rs spawned p h = absurd (cc)
  complete-over rs testing p h = absurd (cc)
  complete-over rs reading p h = absurd (cc)
  complete-over rs finished p h = refl

  -- A thread that is waited for calls back.
  pub join-Advances : (rs : List Read) (p : Processor) → Advances p (join E rs p)
  unfolding join
  join-Advances rs p = elim (Bool-cases (is_alive p.thread)) [
    | inl e ↦ called-Advances p _ (complete-callbacks rs p.thread p e)
    | inr e ↦
        let same = complete-over rs p.thread p e in
        record {
          more_calls = omega (arith, ap (λ (q : Processor). callbacks q.calls) same);
          attention = ground (
            arith,
            ap (λ (q : Processor). callbacks q.calls) same,
            ap (λ (q : Processor). q.active_stream) same,
          );
        }
  ]

  pub run-Advances : (rs : List Read) (p : Processor) → Advances p (run E rs p)
  unfolding run
  run-Advances rs p =
      let ready : Processor = (if has_thread p.thread then join E rs p else p) in
      let waited : Advances p ready =
        if_both (Advances p) (has_thread p.thread) _ p (join-Advances rs p)
          (Advances-same p p refl refl refl) in
      if_both (Advances p) (has_thread p.thread && p.running) p _ (Advances-same p p refl refl refl)
        (if_both (Advances p) ready.active_stream (launch E ready) ready
          (Advances-trans p ready _ waited (launch-Advances ready)) waited)

  pub remove_stream-Advances :
      (rs : List Read) (x : Stream) (p : Processor) → Advances p (remove_stream E rs x p)
  unfolding remove_stream shutdown
  remove_stream-Advances rs x p =
      let told : Processor = record p { shutdown_flag = true } in
      let same : Advances p p = Advances-same p p refl refl refl in
      if_both (Advances p) (p.active_stream && str_eq p.stream.stream_id x.stream_id) _ p
        (if_both (Advances p) p.running (join E rs told) p
          (Advances-trans p told _ (Advances-same p told refl refl refl) (join-Advances rs told))
          same)
        same

  pub Move-Advances : (p q : Processor) → Move E p q → Advances p q
  unfolding begin
  Move-Advances p q (begins h e) =
      alive-Advances p q testing (ap (λ (x : Processor). x.thread) e) refl
        (ap (λ (x : Processor). callbacks x.calls) e)
  Move-Advances p q (leaves h flag e) =
      called-Advances p q (ap (λ (x : Processor). callbacks x.calls) e ∙ end_run-callbacks p)
  Move-Advances p q (enters h flag e) =
      alive-Advances p q reading (ap (λ (x : Processor). x.thread) e) refl
        (ap (λ (x : Processor). callbacks x.calls) e)
  Move-Advances p q (reads r h e) =
      let back : Processor = record p { thread = testing } in
      alive-Advances p q testing (ap (λ (x : Processor). x.thread) e ∙ (body-Keeps E r back).thread)
        refl
        (ap (λ (x : Processor). callbacks x.calls) e ∙ (body-IsBalanced E r back).same_callbacks)

-- ===== src/Processor/Invariant/Control.antt =====
-- What holds of a processor of cpp/BulkIOToSDDSProcessor.cpp at every moment, under the methods that control
-- its thread and the steps of the thread: the flag `m_running`, and an invariant.
use text.Mathlib.Text.{◌==◌ as str_eq}
use sink_sdds.Base.{
  ℕ, ◌%◌, ◌<◌, arith, ◌≡◌, refl, sym, subst, ap, ◌∙◌, String, Option, none, Bool, true, false, ◌&&◌,
  List, [], ◌∷◌, if_both, if_split, if◌then◌else◌,
}
use sink_sdds.Settings.{SddsSettings, AttachSettings, OverrideSddsHeader}
use sink_sdds.Processor.Types.{
  Native, Env, Read, Stream, Thread, null, spawned, testing, reading, finished, streams_done,
  Connection, Processor,
}
use sink_sdds.Processor.Calls.{call_attach, push_sri_to}
use sink_sdds.Processor.Loop.{shutdown, resume, begin, no_data, end_run, run_thread}
use sink_sdds.Processor.Lifecycle.{
  Uninitialized, create, complete, has_thread, join, launch, run, set_stream, remove_stream,
  set_sdds_settings, set_override_header_settings, set_attach_settings, set_connection,
}
use sink_sdds.Processor.Moves.{Move, begins, leaves, enters, reads}
use sink_sdds.Processor.Moves.Runs.{body-Keeps, push_sri_to-Keeps}
use sink_sdds.Packet.Header.{Header}
use sink_sdds.Packet.Layout.{FitsLayout}
use sink_sdds.Processor.Template.{default_bps, override_sdds_header}
use sink_sdds.Processor.Template.Layout.{override_sdds_header-FitsLayout}
use sink_sdds.Processor.Invariant.{
  IsInvariant, call_attach-keeps, push_sri_to-keeps, body-keeps, loop-keeps,
}

-- Whether the thread is between the first and the last line of `_run`.
abbrev pub is_running : Thread → Bool
is_running null = false
is_running spawned = false
is_running testing = true
is_running reading = true
is_running finished = false

-- `m_running` tells whether the thread runs, and the invariant holds.
pub record Sound (N : Processor → Type 0) (p : Processor) : Type 0 where
  pub running : p.running ≡ is_running p.thread
  pub holds : N p

module _ {E : Env} {N : Processor → Type 0} (laws : IsInvariant E N) where
  -- The thread is as it was.
  steady :
      (p q : Processor) → q.running ≡ p.running → q.thread ≡ p.thread → N q → Sound N p → Sound N q
  steady p q r t w v = record { running = r ∙ (v.running ∙ ap is_running (sym t)); holds = w }

  -- Only members that the invariant does not read have changed.
  unread :
      (p q : Processor)
      → q.running ≡ p.running
      → q.thread ≡ p.thread
      → q.template ≡ p.template
      → q.seq ≡ p.seq
      → q.calls ≡ p.calls
      → Sound N p
      → Sound N q
  unread p q r t h n c v = steady p q r t (laws.same p q h n c v.holds) v

  end_run-Sound : (p : Processor) → N p → Sound N (end_run p)
  unfolding end_run
  end_run-Sound p v = record {
    running = refl;
    holds =
        laws.called (streams_done p.stream.stream_id)
          (record p { first_run = true; shutdown_flag = false; running = false; thread = finished })
          refl (laws.same p _ refl refl refl v);
  }

  pub set_stream-Sound : (x : Stream) (p : Processor) → Sound N p → Sound N (set_stream x p)
  unfolding set_stream
  set_stream-Sound x p v =
      let named : Processor = record p { stream = x; active_stream = true } in
      let w : N named = laws.same p named refl refl refl v.holds in
      let h : Header =
        (if p.override.enabled
          then p.template
          else record (p.template) { bps = default_bps p.native % 32 }) in
      let narrow : default_bps p.native % 32 < 32 = omega arith in
      let kept : FitsLayout p.template → FitsLayout h =
        λ fits. if_both FitsLayout p.override.enabled p.template _ fits (ground arith) in
      if_both (Sound N) p.active_stream p _ v (steady p _ refl refl (laws.framed h named kept w) v)

  pub push_sri_to-Sound :
      (target : Option String) (p : Processor) → Sound N p → Sound N (push_sri_to target p)
  push_sri_to-Sound target p v =
      steady p _ (push_sri_to-Keeps target p).running (push_sri_to-Keeps target p).thread
        (push_sri_to-keeps laws target p v.holds) v

  complete-Sound :
      (rs : List Read) (t : Thread) (p : Processor)
      → p.thread ≡ t
      → Sound N p
      → Sound N (complete E rs t p) × ((complete E rs t p).running ≡ false)
  unfolding complete run_thread begin resume
  complete-Sound rs null p h v = (v, v.running ∙ ap is_running h)
  complete-Sound rs spawned p h v = (
    end_run-Sound _ (loop-keeps laws rs (begin p) (laws.same p (begin p) refl refl refl v.holds)),
    unfold end_run in refl,
  )
  complete-Sound rs testing p h v =
      (end_run-Sound _ (loop-keeps laws rs p v.holds), unfold end_run in refl)
  complete-Sound [] reading p h v =
      let back : Processor = record p { thread = testing } in
      let w : N back = laws.same p back refl refl refl v.holds in
      (
        end_run-Sound _ (loop-keeps laws [] _ (body-keeps laws (no_data p) back w)),
        unfold end_run in refl,
      )
  complete-Sound (r ∷ rs) reading p h v =
      let back : Processor = record p { thread = testing } in
      let w : N back = laws.same p back refl refl refl v.holds in
      (end_run-Sound _ (loop-keeps laws rs _ (body-keeps laws r back w)), unfold end_run in refl)
  complete-Sound rs finished p h v = (v, v.running ∙ ap is_running h)

  pub run_thread-keeps : (rs : List Read) (p : Processor) → N p → N (run_thread E rs p)
  unfolding run_thread
  run_thread-keeps rs p v =
      (end_run-Sound _
        (loop-keeps laws rs (begin p) (laws.same p (begin p) refl refl refl v))).holds

  pub join-Sound :
      (rs : List Read) (p : Processor)
      → Sound N p
      → Sound N (join E rs p) × ((join E rs p).running ≡ false)
  unfolding join
  join-Sound rs p v =
      let (after, over) = complete-Sound rs p.thread p refl v in
      (
        record {
          running = over;
          holds = laws.same (complete E rs p.thread p) _ refl refl refl after.holds;
        },
        over,
      )

  call_attach-running : (p : Processor) → (call_attach E none p).running ≡ p.running
  unfolding call_attach
  call_attach-running p = ground arith

  launch-Sound : (p : Processor) → p.running ≡ false → Sound N p → Sound N (launch E p)
  unfolding launch
  launch-Sound p h v =
      let attached : Processor = call_attach E none p in
      let w : N attached = call_attach-keeps laws p v.holds in
      let o = attached.override in
      let framed =
        laws.framed (override_sdds_header E.floats o attached.template) attached
          (override_sdds_header-FitsLayout E.floats o attached.template) w in
      record { running = call_attach-running p ∙ h; holds = laws.same _ _ refl refl refl framed }

  no_thread : (t : Thread) → has_thread t ≡ false → is_running t ≡ false
  no_thread null h = refl
  no_thread spawned h = absurd (cc)
  no_thread testing h = absurd (cc)
  no_thread reading h = absurd (cc)
  no_thread finished h = absurd (cc)

  pub run-Sound : (rs : List Read) (p : Processor) → Sound N p → Sound N (run E rs p)
  unfolding run
  run-Sound rs p v =
      let ready : Processor = (if has_thread p.thread then join E rs p else p) in
      let waited : Sound N ready × (ready.running ≡ false) =
        if_split (λ (q : Processor). Sound N q × (q.running ≡ false)) (has_thread p.thread) _ p
          (λ _. join-Sound rs p v) (λ e. (v, v.running ∙ no_thread p.thread e)) in
      if_both (Sound N) (has_thread p.thread && p.running) p _ v (
        if_both (Sound N) ready.active_stream (launch E ready) ready
          (launch-Sound ready waited.1 waited.0) waited.0)

  pub shutdown-Sound : (p : Processor) → Sound N p → Sound N (shutdown p)
  unfolding shutdown
  shutdown-Sound p v = unread p _ refl refl refl refl refl v

  pub remove_stream-Sound :
      (rs : List Read) (x : Stream) (p : Processor) → Sound N p → Sound N (remove_stream E rs x p)
  unfolding remove_stream
  remove_stream-Sound rs x p v =
      if_both (Sound N) (p.active_stream && str_eq p.stream.stream_id x.stream_id) _ p
        (if_both (Sound N) p.running (join E rs (shutdown p)) p
          (join-Sound rs (shutdown p) (shutdown-Sound p v)).0 v)
        v

  pub Move-Sound : (p q : Processor) → Move E p q → Sound N p → Sound N q
  unfolding begin
  Move-Sound p q (begins h e) v =
      subst (Sound N) (sym e)
        (record { running = refl; holds = laws.same p (begin p) refl refl refl v.holds })
  Move-Sound p q (leaves h flag e) v = subst (Sound N) (sym e) (end_run-Sound p v.holds)
  Move-Sound p q (enters h flag e) v = subst (Sound N) (sym e) (record {
    running = v.running ∙ ap is_running h;
    holds = laws.same p _ refl refl refl v.holds;
  })
  Move-Sound p q (reads r h e) v =
      let back : Processor = record p { thread = testing } in
      let kept = body-Keeps E r back in
      subst (Sound N) (sym e) (record {
        running = kept.running ∙ (v.running ∙ (ap is_running h ∙ ap is_running (sym kept.thread)));
        holds = body-keeps laws r back (laws.same p back refl refl refl v.holds);
      })

  set_sdds_settings-Sound :
      (o : SddsSettings) (p : Processor) → Sound N p → Sound N (set_sdds_settings o p)
  unfolding set_sdds_settings
  set_sdds_settings-Sound o p v =
      let h : Header = record (p.template) {
        sf = o.standard_format % 2;
        of = o.original_format % 2;
        ss = o.spectral_sense % 2;
      } in
      let set : Processor = record p { user_settings = o } in
      let w : N set = laws.same p set refl refl refl v.holds in
      if_both (Sound N) p.running p _ v
        (steady p _ refl refl (laws.framed h set (λ fits. ground arith) w) v)

  pub configure-Sound :
      (o : SddsSettings) (h : OverrideSddsHeader) (a : AttachSettings) (p : Processor)
      → Sound N p
      → Sound N (set_attach_settings a (set_override_header_settings h (set_sdds_settings o p)))
  unfolding set_override_header_settings set_attach_settings
  configure-Sound o h a p v =
      unread (set_sdds_settings o p) _ refl refl refl refl refl (set_sdds_settings-Sound o p v)

  pub set_connection-Sound :
      (connection : Connection) (vlan : ℕ) (p : Processor)
      → Sound N p
      → Sound N (set_connection connection vlan p)
  unfolding set_connection
  set_connection-Sound connection vlan p v = unread p _ refl refl refl refl refl v

-- A processor that has just been constructed.
pub create-Sound :
    {N : Processor → Type 0} (E : Env) (n : Native) (u : Uninitialized)
    → N (create E n u)
    → Sound N (create E n u)
unfolding create
create-Sound E n u v = record { running = refl; holds = v }

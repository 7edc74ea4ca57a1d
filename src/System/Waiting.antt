-- ===== src/System/Waiting.antt =====
-- Waiting for the thread of a processor, as the steps of that thread and its join.
use sink_sdds.Base.{◌≡◌, refl, sym, subst, ap, ◌∙◌, false, List, [], ◌∷◌}
use sink_sdds.Processor.Types.{
  Native, octet, short, float, Env, Read, Thread, null, spawned, testing, reading, finished,
  Processor,
}
use sink_sdds.Processor.Loop.{resume, no_data, body, run_thread, end_run}
use sink_sdds.Processor.Moves.Runs.{loop-Moves, run_thread-Moves, body-Keeps}
use sink_sdds.System.Attention.{complete-over}
use sink_sdds.Processor.Lifecycle.{complete, join}
use sink_sdds.Processor.Moves.{Move, Moves, done, then_on, reads}
use sink_sdds.Component.{Component, proc, with_proc}
use sink_sdds.Component.Session.Lifetime.{is_alive}
use sink_sdds.System.{System, Control, Reach, here, next, Joins, moves, joins}

module _ (E : Env) where
  -- What is left of a thread is a sequence of its steps.
  complete-Moves :
      (rs : List Read) (t : Thread) (p : Processor) → p.thread ≡ t → Moves E p (complete E rs t p)
  unfolding complete resume
  complete-Moves rs null p h = done p
  complete-Moves rs spawned p h = run_thread-Moves E rs p h
  complete-Moves rs testing p h = loop-Moves E rs p h
  complete-Moves [] reading p h =
      let q : Processor = body E (no_data p) (record p { thread = testing }) in
      then_on p q _ (reads (no_data p) h refl)
        (loop-Moves E [] q (body-Keeps E (no_data p) (record p { thread = testing })).thread)
  complete-Moves (r ∷ rs) reading p h =
      let q : Processor = body E r (record p { thread = testing }) in
      then_on p q _ (reads r h refl)
        (loop-Moves E rs q (body-Keeps E r (record p { thread = testing })).thread)
  complete-Moves rs finished p h = done p

  with_proc-same : (n : Native) (c : Component) → with_proc n (proc n c) c ≡ c
  with_proc-same octet c = refl
  with_proc-same short c = refl
  with_proc-same float c = refl

  with_proc-twice :
      (n : Native) (p q : Processor) (c : Component)
      → with_proc n q (with_proc n p c) ≡ with_proc n q c
  with_proc-twice octet p q c = refl
  with_proc-twice short p q c = refl
  with_proc-twice float p q c = refl

  proc-with_proc : (n : Native) (p : Processor) (c : Component) → proc n (with_proc n p c) ≡ p
  proc-with_proc octet p c = refl
  proc-with_proc short p c = refl
  proc-with_proc float p c = refl

  pub Reach-trans : (s t u : System) → Reach E s t → Reach E t u → Reach E s u
  Reach-trans s t _ a here = a
  Reach-trans s t _ a (next b st) = next (Reach-trans s t _ a b) st

  -- The steps of one thread as steps of the system.
  Moves-Reach :
      (n : Native) (p q : Processor) (s : System)
      → Moves E p q
      → Reach E
          (record s { component = with_proc n p s.component })
          (record s { component = with_proc n q s.component })
  Moves-Reach n p _ s (done _) = here
  Moves-Reach n p q s (then_on _ m _ first rest) =
      let c : Component = s.component in
      let at : Processor → System = λ x. record s { component = with_proc n x c } in
      Reach-trans (at p) (at m) (at q)
        (next here (
          moves n m (subst (λ (x : Processor). Move E x m) (sym (proc-with_proc n p c)) first)
            (ap (λ (d : Component). record s { component = d }) (sym (with_proc-twice n p m c)))))
        (Moves-Reach n m q s rest)

  complete-still :
      (rs : List Read) (t : Thread) (p : Processor)
      → p.thread ≡ t
      → is_alive (complete E rs t p).thread ≡ false
  unfolding complete run_thread end_run
  complete-still rs null p h = ap is_alive h
  complete-still rs spawned p h = refl
  complete-still rs testing p h = refl
  complete-still rs reading p h = refl
  complete-still rs finished p h = ap is_alive h

  -- Waiting for one thread: its steps to the end, and the join.
  pub join-Reach :
      (n : Native) (rs : List Read) (s : System) (after : Control)
      → Joins n s.control after
      → Reach E s (record s {
        component = with_proc n (join E rs (proc n s.component)) s.component;
        control = after;
      })
  unfolding join
  join-Reach n rs s after order =
      let c : Component = s.component in
      let p : Processor = proc n c in
      let q : Processor = complete E rs p.thread p in
      let over : System = record s { component = with_proc n q c } in
      next
        (subst (λ (d : Component). Reach E (record s { component = d }) over) (with_proc-same n c)
          (Moves-Reach n p q s (complete-Moves rs p.thread p refl)))
        (joins n after order
          (ap (λ (x : Processor). is_alive x.thread) (proc-with_proc n q c)
            ∙ complete-still rs p.thread p refl)
          (ap (λ (d : Component). record s { component = d; control = after })
            (sym (
              ap (λ (x : Processor). with_proc n (join E [] x) (with_proc n q c))
                (proc-with_proc n q c)
              ∙ (with_proc-twice n q (join E [] q) c
                  ∙ ap (λ (x : Processor). with_proc n (record x { thread = null }) c)
                      (complete-over E [] q.thread q (complete-still rs p.thread p refl)))))))

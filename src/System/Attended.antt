-- ===== src/System/Attended.antt =====
-- Over every interleaving: the streams on deck, and what is still to serve them.
use sink_sdds.Base.{
  suc, ◌+◌, ◌≤◌, ◌<◌, ◌≡◌, refl, sym, subst, Bool, true, some, List, [], arith, if◌then◌else◌,
  if_both, Bool-cases, inl, inr,
}
use sink_sdds.Processor.Types.{Native, octet, short, float, Env, Read, Stream, Processor}
use sink_sdds.Processor.Loop.{shutdown}
use sink_sdds.Processor.Lifecycle.{
  Uninitialized, run, join, set_stream, set_sdds_settings, set_override_header_settings,
  set_attach_settings, set_connection,
}
use sink_sdds.Processor.Lifecycle
use sink_sdds.Component.{
  Component, proc, deck, back, stream_is_active, new_stream, give, promote, streams_done,
  remove_stream, create,
}
use sink_sdds.Component.Decks.{deck_count, new_stream-waits, new_stream-idle, streams_done_cases}
use sink_sdds.Component.Session.{connect_and_run}
use sink_sdds.System.{
  System, called_back, Step, arrives, removed, calls_back, moves, sets_override, sets_sdds,
  sets_network, connects, starts, fails, runs, started, tells, halts, gives_up, joins, closes,
  Reach, here, next, initial,
}
use sink_sdds.System.Attention.{
  Advances, Advances-same, Advances-trans, set_stream-Advances, join-Advances, run-Advances,
  remove_stream-Advances, Move-Advances,
}
use sink_sdds.Component.Handover.{back-length}
use sink_sdds.System.Forward.{
  busy_count, Forward, with_proc-Forward, setup_socket-Forward, new_connection_made-Forward,
  setters-Forward, close_connection-Forward,
}

-- At most one stream is on deck, and if there is one, a processor holds a stream, or has a thread that
-- will call back, or a callback is still to be served.
pub record IsAttended (s : System) : Type 0 where
  pub served : s.handled ≤ called_back s.component
  pub one_on_deck : deck_count s.component ≤ 1
  pub attended :
      deck_count s.component + s.handled ≤ busy_count s.component + called_back s.component

pub same_processors :
    (c d : Component)
    → d.floatproc ≡ c.floatproc
    → d.shortproc ≡ c.shortproc
    → d.octetproc ≡ c.octetproc
    → (called_back d ≡ called_back c) × (busy_count d ≡ busy_count c)
same_processors c d f h o = rw (f, h, o) (refl, refl)

-- One of the processors is busy if a stream is active.
active-busy : (c : Component) → stream_is_active c ≡ true → 1 ≤ busy_count c
unfolding stream_is_active
active-busy c h = ground arith

module _ (E : Env) (rs : List Read) where
  set_run-Advances :
      (b : Bool) (x : Stream) (p : Processor)
      → Advances p (if b then run E rs (set_stream x p) else set_stream x p)
  set_run-Advances b x p =
      let q : Processor = set_stream x p in
      if_both (Advances p) b (run E rs q) q
        (Advances-trans p q (run E rs q) (set_stream-Advances x p) (run-Advances E rs q))
        (set_stream-Advances x p)

  pub give-Forward : (n : Native) (x : Stream) (c : Component) → Forward c (give E rs n x c)
  give-Forward n x c = with_proc-Forward n _ c (set_run-Advances c.started x (proc n c))

  connect_and_run-Advances : (c : Component) (p : Processor) → Advances p (connect_and_run E rs c p)
  unfolding connect_and_run set_connection
  connect_and_run-Advances c p =
      let q : Processor = record p { connection = c.connection; vlan = c.network_settings.vlan } in
      Advances-trans p q (run E rs q) (Advances-same p q refl refl refl) (run-Advances E rs q)

  remove_stream-Forward :
      (n : Native) (x : Stream) (c : Component) → Forward c (remove_stream E rs n x c)
  unfolding remove_stream
  remove_stream-Forward n x c = with_proc-Forward n _ c (remove_stream-Advances E rs x (proc n c))

  -- A new stream goes to a processor, or waits for the one that is active.
  new_stream-IsAttended :
      (n : Native) (x : Stream) (s : System)
      → IsAttended s
      → IsAttended (record s { component = new_stream E rs n x s.component })
  new_stream-IsAttended n x s v = elim (Bool-cases (stream_is_active s.component)) [
    | inl e ↦
        let (on_deck, count, named, current, f, h, o) = new_stream-waits E rs n x s.component e in
        let kept = same_processors s.component (new_stream E rs n x s.component) f h o in
        omega (arith, active-busy s.component e)
    | inr e ↦
        rw (new_stream-idle E rs n x s.component e)
          (let g = give-Forward n x s.component in omega arith)
  ]

  promote-empties :
      (n : Native) (x : Stream) (c : Component)
      → deck_count c ≤ 1
      → back (deck n c) ≡ some x
      → (deck_count (promote E rs n x c) ≡ 0) × (called_back c ≤ called_back (promote E rs n x c))
  unfolding promote
  promote-empties octet x c one e =
      let g = give-Forward octet (record x { enabled = true }) c in
      omega (arith, back-length x c.octet_on_deck e)
  promote-empties short x c one e =
      let g = give-Forward short (record x { enabled = true }) c in
      omega (arith, back-length x c.short_on_deck e)
  promote-empties float x c one e =
      let g = give-Forward float (record x { enabled = true }) c in
      omega (arith, back-length x c.float_on_deck e)

  -- A callback that is served serves the stream on deck, if there is one.
  streams_done-IsAttended :
      (s : System)
      → IsAttended s
      → s.handled < called_back s.component
      → IsAttended (record s { component = streams_done E rs s.component; handled = suc s.handled })
  streams_done-IsAttended s v pending =
      streams_done_cases E rs
        (λ (d : Component). IsAttended (record s { component = d; handled = suc s.handled }))
        s.component (λ empty. omega arith)
        (λ n x e. omega (arith, promote-empties n x s.component v.one_on_deck e))

-- A step keeps the invariant if the deck is as it was and no processor falls back.
forward :
    (s t : System)
    → IsAttended s
    → Forward s.component t.component
    → t.handled ≡ s.handled
    → IsAttended t
forward s t v f h = omega arith

module _ (E : Env) where
  Step-IsAttended : (s t : System) → Step E s t → IsAttended s → IsAttended t
  unfolding shutdown
  Step-IsAttended s t (arrives n rs x e) v =
      subst IsAttended (sym e) (new_stream-IsAttended E rs n x s v)
  Step-IsAttended s t (removed n rs x e) v =
      subst IsAttended (sym e) (forward s _ v (remove_stream-Forward E rs n x s.component) refl)
  Step-IsAttended s t (calls_back rs pending e) v =
      subst IsAttended (sym e) (streams_done-IsAttended E rs s v pending)
  Step-IsAttended s t (moves n p m e) v = subst IsAttended (sym e) (
      forward s _ v (with_proc-Forward n p s.component (Move-Advances E (proc n s.component) p m))
        refl)
  Step-IsAttended s t (sets_override o e) v =
      subst IsAttended (sym e) (forward s _ v ((setters-Forward s.component).0 o) refl)
  Step-IsAttended s t (sets_sdds o e) v =
      subst IsAttended (sym e) (forward s _ v ((setters-Forward s.component).1 o) refl)
  Step-IsAttended s t (sets_network o e) v =
      subst IsAttended (sym e) (forward s _ v ((setters-Forward s.component).2 o) refl)
  Step-IsAttended s t (connects id cs e) v =
      subst IsAttended (sym e) (forward s _ v (new_connection_made-Forward id cs s.component) refl)
  Step-IsAttended s t (starts os rest idle usable e) v =
      subst IsAttended (sym e) (forward s _ v (setup_socket-Forward os s.component) refl)
  Step-IsAttended s t (fails os rest idle unusable e) v =
      subst IsAttended (sym e) (forward s _ v (setup_socket-Forward os s.component) refl)
  Step-IsAttended s t (runs n after rs order e) v = subst IsAttended (sym e) (
      forward s _ v
        (with_proc-Forward n _ s.component
          (connect_and_run-Advances E rs s.component (proc n s.component)))
        refl)
  Step-IsAttended s t (started c e) v = subst IsAttended (sym e) (omega arith)
  Step-IsAttended s t (tells c e) v = subst IsAttended (sym e) (omega arith)
  Step-IsAttended s t (halts c e) v = subst IsAttended (sym e) (omega arith)
  Step-IsAttended s t (gives_up c e) v = subst IsAttended (sym e) (omega arith)
  Step-IsAttended s t (joins n after order over e) v = subst IsAttended (sym e) (
      forward s _ v (with_proc-Forward n _ s.component (join-Advances E [] (proc n s.component)))
        refl)
  Step-IsAttended s t (closes c e) v =
      subst IsAttended (sym e) (forward s _ v (close_connection-Forward s.component) refl)

  -- From a component that has just been constructed, however streams, callbacks, property changes, calls
  -- of start and stop and the steps of the three threads interleave: at most one stream is on deck, no
  -- more callbacks are served than were started, and while a stream is on deck a processor holds a
  -- stream or has a thread that is not over, or a callback is still to be served.
  pub Reach-IsAttended :
      (f x o : Uninitialized) (s : System) → Reach E (initial E f x o) s → IsAttended s
  unfolding initial create Lifecycle.create
  Reach-IsAttended f x o _ here = omega arith
  Reach-IsAttended f x o _ (next r st) = Step-IsAttended _ _ st (Reach-IsAttended f x o _ r)

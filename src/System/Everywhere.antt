-- ===== src/System/Everywhere.antt =====
-- Over every interleaving: an invariant of the processors, and the flag `m_running`, hold of all three.
use text.Mathlib.Text.{◌==◌ as str_eq}
use sink_sdds.Base.{
  ◌≡◌, refl, sym, subst, String, true, some, List, [], ◌∷◌, if_both, ◌==◌, Bool-cases, inl, inr,
}
use sink_sdds.Settings.{NetworkSettings, SddsSettings, OverrideSddsHeader}
use sink_sdds.Processor.Types.{Native, octet, short, float, Env, Read, Stream, Processor}
use sink_sdds.Processor.Lifecycle.{Uninitialized, create as processor_create, set_stream}
use sink_sdds.Processor.Invariant.{IsInvariant}
use sink_sdds.Processor.Invariant.Control.{
  Sound, create-Sound, configure-Sound, set_connection-Sound, set_stream-Sound, push_sri_to-Sound,
  run-Sound, shutdown-Sound, join-Sound, remove_stream-Sound, Move-Sound,
}
use sink_sdds.Component.{
  Component, proc, with_proc, stream_is_active, new_stream, give, promote, remove_stream, create,
}
use sink_sdds.Component.Decks.{new_stream-waits, new_stream-idle, streams_done_cases}
use sink_sdds.Component.Session.{
  configure, setup_socket, connect_and_run, push_to_connections, new_connection_made,
  set_override_sdds_header_struct, set_sdds_settings_struct, set_network_settings_struct,
}
use sink_sdds.Component.Session.Lifetime.{setup_socket-IsKept}
use sink_sdds.Sockets.{Os}
use sink_sdds.System.{
  System, configured, Step, arrives, removed, calls_back, moves, sets_override, sets_sdds,
  sets_network, connects, starts, fails, runs, started, tells, halts, gives_up, joins, closes,
  Reach, here, next, initial,
}

-- What holds of each of the three processors.
pub record Everywhere (P : Processor → Type 0) (c : Component) : Type 0 where
  pub floats : P c.floatproc
  pub shorts : P c.shortproc
  pub octets : P c.octetproc

module _ {E : Env} {N : Processor → Type 0} (laws : IsInvariant E N) where
  abbrev IsSound : Processor → Type 0
  IsSound = Sound N

  abbrev AllSound : Component → Type 0
  AllSound = Everywhere (Sound N)

  same_processors-AllSound :
      (c d : Component)
      → d.floatproc ≡ c.floatproc
      → d.shortproc ≡ c.shortproc
      → d.octetproc ≡ c.octetproc
      → AllSound c
      → AllSound d
  same_processors-AllSound c d f s o v = record {
    floats = subst IsSound (sym f) v.floats;
    shorts = subst IsSound (sym s) v.shorts;
    octets = subst IsSound (sym o) v.octets;
  }

  proc-IsSound : (n : Native) (c : Component) → AllSound c → IsSound (proc n c)
  proc-IsSound octet c v = v.octets
  proc-IsSound short c v = v.shorts
  proc-IsSound float c v = v.floats

  with_proc-AllSound :
      (n : Native) (q : Processor) (c : Component)
      → AllSound c
      → IsSound q
      → AllSound (with_proc n q c)
  with_proc-AllSound octet q c v w = record { floats = v.floats; shorts = v.shorts; octets = w }
  with_proc-AllSound short q c v w = record { floats = v.floats; shorts = w; octets = v.octets }
  with_proc-AllSound float q c v w = record { floats = w; shorts = v.shorts; octets = v.octets }

  setup_socket-AllSound :
      (os : Os) (c : Component) → AllSound c → AllSound (setup_socket os (configured c)).0
  unfolding configure
  setup_socket-AllSound os c v =
      let kept = setup_socket-IsKept os (configured c) in
      same_processors-AllSound (configured c) (setup_socket os (configured c)).0 kept.1 kept.2
        kept.3
        (record {
          floats =
              configure-Sound laws c.sdds_settings c.override_sdds_header c.attach_settings
                c.floatproc v.floats;
          shorts =
              configure-Sound laws c.sdds_settings c.override_sdds_header c.attach_settings
                c.shortproc v.shorts;
          octets =
              configure-Sound laws c.sdds_settings c.override_sdds_header c.attach_settings
                c.octetproc v.octets;
        })

  connections-AllSound :
      (id : String) (connections : List (String × String)) (c : Component)
      → AllSound c
      → AllSound (push_to_connections id connections c)
  unfolding push_to_connections
  connections-AllSound id [] c v = v
  connections-AllSound id ((other, port) ∷ rest) c v = connections-AllSound id rest _ (
      if_both AllSound (str_eq id other) _ c
        (record {
          floats = push_sri_to-Sound laws (some port) c.floatproc v.floats;
          shorts = push_sri_to-Sound laws (some port) c.shortproc v.shorts;
          octets = push_sri_to-Sound laws (some port) c.octetproc v.octets;
        })
        v)

  after : {s : System} {t : System} → t ≡ s → AllSound s.component → AllSound t.component
  after e v = subst (λ (r : System). AllSound r.component) (sym e) v

  setters-AllSound :
      (c : Component)
      → AllSound c
      → ((o : OverrideSddsHeader) → AllSound (set_override_sdds_header_struct o c))
        × ((o : SddsSettings) → AllSound (set_sdds_settings_struct o c))
        × ((o : NetworkSettings) → AllSound (set_network_settings_struct o c))
  unfolding set_override_sdds_header_struct set_sdds_settings_struct set_network_settings_struct
  setters-AllSound c v = (
    λ o. if_both AllSound c.started c _ v (same_processors-AllSound c _ refl refl refl v),
    λ o. if_both AllSound c.started c _ v (same_processors-AllSound c _ refl refl refl v),
    λ o. if_both AllSound c.started c _ v (same_processors-AllSound c _ refl refl refl v),
  )

  module _ (rs : List Read) where
    give-AllSound :
        (n : Native) (x : Stream) (c : Component) → AllSound c → AllSound (give E rs n x c)
    give-AllSound n x c v =
        let w : IsSound (set_stream x (proc n c)) =
          set_stream-Sound laws x (proc n c) (proc-IsSound n c v) in
        with_proc-AllSound n _ c v (if_both IsSound c.started _ _ (run-Sound laws rs _ w) w)

    promote-AllSound :
        (n : Native) (x : Stream) (c : Component) → AllSound c → AllSound (promote E rs n x c)
    unfolding promote
    promote-AllSound octet x c v =
        same_processors-AllSound _ _ refl refl refl
          (give-AllSound octet (record x { enabled = true }) c v)
    promote-AllSound short x c v =
        same_processors-AllSound _ _ refl refl refl
          (give-AllSound short (record x { enabled = true }) c v)
    promote-AllSound float x c v =
        same_processors-AllSound _ _ refl refl refl
          (give-AllSound float (record x { enabled = true }) c v)

    new_stream-AllSound :
        (n : Native) (x : Stream) (c : Component) → AllSound c → AllSound (new_stream E rs n x c)
    new_stream-AllSound n x c v = elim (Bool-cases (stream_is_active c)) [
      | inl e ↦
          let (_, _, _, _, f, s, o) = new_stream-waits E rs n x c e in
          same_processors-AllSound c (new_stream E rs n x c) f s o v
      | inr e ↦ rw (new_stream-idle E rs n x c e) (give-AllSound n x c v)
    ]

    connect_and_run-IsSound :
        (c : Component) (p : Processor) → IsSound p → IsSound (connect_and_run E rs c p)
    unfolding connect_and_run
    connect_and_run-IsSound c p v =
        run-Sound laws rs _ (set_connection-Sound laws c.connection c.network_settings.vlan p v)

    remove_stream-AllSound :
        (n : Native) (x : Stream) (c : Component) → AllSound c → AllSound (remove_stream E rs n x c)
    unfolding remove_stream
    remove_stream-AllSound n x c v =
        with_proc-AllSound n _ c v (remove_stream-Sound laws rs x (proc n c) (proc-IsSound n c v))

  -- The component after a step.
  Step-AllSound : (s t : System) → Step E s t → AllSound s.component → AllSound t.component
  unfolding new_connection_made
  Step-AllSound s t (arrives n rs x e) v = after e (new_stream-AllSound rs n x s.component v)
  Step-AllSound s t (removed n rs x e) v = after e (remove_stream-AllSound rs n x s.component v)
  Step-AllSound s t (calls_back rs pending e) v = after e (
      streams_done_cases E rs AllSound s.component (λ _. v)
        (λ n x _. promote-AllSound rs n x s.component v))
  Step-AllSound s t (moves n p m e) v = after e (
      with_proc-AllSound n p s.component v
        (Move-Sound laws (proc n s.component) p m (proc-IsSound n s.component v)))
  Step-AllSound s t (sets_override o e) v = after e ((setters-AllSound s.component v).0 o)
  Step-AllSound s t (sets_sdds o e) v = after e ((setters-AllSound s.component v).1 o)
  Step-AllSound s t (sets_network o e) v = after e ((setters-AllSound s.component v).2 o)
  Step-AllSound s t (connects id cs e) v =
      after e
        (if_both AllSound s.component.started _ _ (connections-AllSound id cs s.component v) v)
  Step-AllSound s t (starts os rest idle usable e) v =
      after e (setup_socket-AllSound os s.component v)
  Step-AllSound s t (fails os rest idle unusable e) v =
      after e (setup_socket-AllSound os s.component v)
  Step-AllSound s t (runs n control rs order e) v = after e (
      with_proc-AllSound n _ s.component v (
        connect_and_run-IsSound rs s.component (proc n s.component) (proc-IsSound n s.component v)))
  Step-AllSound s t (started c e) v =
      after e (same_processors-AllSound s.component _ refl refl refl v)
  Step-AllSound s t (tells c e) v = after e (record {
    floats = shutdown-Sound laws s.component.floatproc v.floats;
    shorts = shutdown-Sound laws s.component.shortproc v.shorts;
    octets = shutdown-Sound laws s.component.octetproc v.octets;
  })
  Step-AllSound s t (halts c e) v =
      after e (same_processors-AllSound s.component _ refl refl refl v)
  Step-AllSound s t (gives_up c e) v =
      after e (same_processors-AllSound s.component _ refl refl refl v)
  Step-AllSound s t (joins n control order over e) v = after e (
      with_proc-AllSound n _ s.component v
        (join-Sound laws [] (proc n s.component) (proc-IsSound n s.component v)).0)
  Step-AllSound s t (closes c e) v = after e (
      if_both AllSound (s.component.connection.sock == 0) _ _ v
        (same_processors-AllSound s.component _ refl refl refl v))

  -- From a component that has just been constructed, over every interleaving of its steps.
  pub Reach-Everywhere :
      (f x o : Uninitialized) (s : System)
      → N (processor_create E float f)
      → N (processor_create E short x)
      → N (processor_create E octet o)
      → Reach E (initial E f x o) s
      → AllSound s.component
  unfolding initial create
  Reach-Everywhere f x o _ vf vx vo here = record {
    floats = create-Sound E float f vf;
    shorts = create-Sound E short x vx;
    octets = create-Sound E octet o vo;
  }
  Reach-Everywhere f x o _ vf vx vo (next r st) =
      Step-AllSound _ _ st (Reach-Everywhere f x o _ vf vx vo r)

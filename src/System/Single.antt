-- ===== src/System/Single.antt =====
-- Over interleavings in which every callback is served while no stream is active: one stream at a time.
use text.Mathlib.Text.{◌==◌ as str_eq}
use sink_sdds.Base.{
  ◌≤◌, ◌≡◌, refl, sym, subst, String, false, some, List, [], ◌∷◌, arith, if◌then◌else◌, if_both,
  ◌==◌,
}
use sink_sdds.Settings.{NetworkSettings, SddsSettings, OverrideSddsHeader}
use sink_sdds.Processor.Types.{Native, octet, short, float, Env, Read, Processor}
use sink_sdds.Processor.Calls.{push_sri_to}
use sink_sdds.Processor.Loop.{shutdown}
use sink_sdds.Processor.Lifecycle.{
  Uninitialized, set_sdds_settings, set_override_header_settings, set_attach_settings,
  set_connection,
}
use sink_sdds.Processor.Lifecycle
use sink_sdds.Processor.Moves.Active.{
  AtMost, push_sri_to-AtMost, join-AtMost, run-AtMost, remove_stream-AtMost, Move-AtMost,
}
use sink_sdds.Component.{
  Component, no_connection, proc, with_proc, stream_is_active, remove_stream, create,
}
use sink_sdds.Component.Decks.{
  deck_count, active_count, IsSingle, new_stream-IsSingle, streams_done-IsSingle,
}
use sink_sdds.Component.Session.{
  configure, setup_socket, connect_and_run, close_connection, push_to_connections,
  new_connection_made, set_override_sdds_header_struct, set_sdds_settings_struct,
  set_network_settings_struct,
}
use sink_sdds.Component.Session.Lifetime.{setup_socket-IsKept}
use sink_sdds.Sockets.{Os}
use sink_sdds.System.{
  System, configured, Step, arrives, removed, calls_back, moves, sets_override, sets_sdds,
  sets_network, connects, starts, fails, runs, started, tells, halts, gives_up, joins, closes,
  Reach, here, next, initial,
}

-- No stream becomes active, and the deck is as it was.
record Lowers (c d : Component) : Type 0 where
  active : active_count d ≤ active_count c
  same_deck : deck_count d ≡ deck_count c

Lowers-IsSingle : (c d : Component) → Lowers c d → IsSingle c → IsSingle d
Lowers-IsSingle c d h v = omega arith

Lowers-three :
    (c d : Component)
    → AtMost c.floatproc d.floatproc
    → AtMost c.shortproc d.shortproc
    → AtMost c.octetproc d.octetproc
    → deck_count d ≡ deck_count c
    → Lowers c d
Lowers-three c d f s o e = omega arith

with_proc-Lowers :
    (n : Native) (q : Processor) (c : Component) → AtMost (proc n c) q → Lowers c (with_proc n q c)
with_proc-Lowers octet q c a = omega arith
with_proc-Lowers short q c a = omega arith
with_proc-Lowers float q c a = omega arith

configure-AtMost : (c : Component) (p : Processor) → AtMost p (configure c p)
unfolding configure set_sdds_settings set_override_header_settings set_attach_settings
configure-AtMost c p = ground arith

setup_socket-Lowers : (os : Os) (c : Component) → Lowers c (setup_socket os (configured c)).0
setup_socket-Lowers os c =
    let kept = setup_socket-IsKept os (configured c) in
    Lowers-three c (setup_socket os (configured c)).0 (rw kept.1 (configure-AtMost c c.floatproc))
      (rw kept.2 (configure-AtMost c c.shortproc)) (rw kept.3 (configure-AtMost c c.octetproc))
      kept.4

connections-IsSingle :
    (id : String) (connections : List (String × String)) (c : Component)
    → IsSingle c
    → IsSingle (push_to_connections id connections c)
unfolding push_to_connections
connections-IsSingle id [] c v = v
connections-IsSingle id ((other, port) ∷ rest) c v =
    let pushed : Component = record c {
      shortproc = push_sri_to (some port) c.shortproc;
      floatproc = push_sri_to (some port) c.floatproc;
      octetproc = push_sri_to (some port) c.octetproc;
    } in
    connections-IsSingle id rest (if str_eq id other then pushed else c) (
      if_both IsSingle (str_eq id other) pushed c
        (Lowers-IsSingle c pushed
          (Lowers-three c pushed (push_sri_to-AtMost (some port) c.floatproc)
            (push_sri_to-AtMost (some port) c.shortproc)
            (push_sri_to-AtMost (some port) c.octetproc) refl)
          v)
        v)

-- The setters, and the end of `stop`.
others-IsSingle :
    (c : Component)
    → IsSingle c
    → ((o : OverrideSddsHeader) → IsSingle (set_override_sdds_header_struct o c))
      × ((o : SddsSettings) → IsSingle (set_sdds_settings_struct o c))
      × ((o : NetworkSettings) → IsSingle (set_network_settings_struct o c))
      × IsSingle (close_connection c)
unfolding set_override_sdds_header_struct set_sdds_settings_struct set_network_settings_struct
others-IsSingle c v = (
  λ o. if_both IsSingle c.started c (record c { override_sdds_header = o }) v (omega arith),
  λ o. if_both IsSingle c.started c (record c { sdds_settings = o }) v (omega arith),
  λ o. if_both IsSingle c.started c (record c { network_settings = o }) v (omega arith),
  if_both IsSingle (c.connection.sock == 0) c (record c { connection = no_connection }) v
      (omega arith),
)

module _ (E : Env) where
  connect_and_run-AtMost :
      (rs : List Read) (c : Component) (p : Processor) → AtMost p (connect_and_run E rs c p)
  unfolding connect_and_run set_connection
  connect_and_run-AtMost rs c p =
      run-AtMost E rs (record p { connection = c.connection; vlan = c.network_settings.vlan })

  -- If the step serves a callback, no stream is active.
  abbrev pub IsPrompt : {s t : System} → Step E s t → Type 0
  IsPrompt {s} {t} (calls_back rs pending e) = stream_is_active s.component ≡ false
  IsPrompt _ = Unit

  -- Every callback is served while no stream is active.
  abbrev pub AllPrompt : {s t : System} → Reach E s t → Type 0
  AllPrompt here = Unit
  AllPrompt (next r st) = AllPrompt r × IsPrompt st

  after : {t : System} {s : System} → t ≡ s → IsSingle s.component → IsSingle t.component
  after e v = subst (λ (r : System). IsSingle r.component) (sym e) v

  Step-IsSingle :
      (s t : System) (st : Step E s t) → IsPrompt st → IsSingle s.component → IsSingle t.component
  unfolding shutdown new_connection_made remove_stream
  Step-IsSingle s t (arrives n rs x e) h v = after e (new_stream-IsSingle E rs n x s.component v)
  Step-IsSingle s t (removed n rs x e) h v = after e (
      Lowers-IsSingle s.component _
        (with_proc-Lowers n _ s.component (remove_stream-AtMost E rs x (proc n s.component))) v)
  Step-IsSingle s t (calls_back rs pending e) h v =
      after e (streams_done-IsSingle E rs s.component h v)
  Step-IsSingle s t (moves n p m e) h v = after e (
      Lowers-IsSingle s.component _
        (with_proc-Lowers n p s.component (Move-AtMost E (proc n s.component) p m)) v)
  Step-IsSingle s t (sets_override o e) h v = after e ((others-IsSingle s.component v).0 o)
  Step-IsSingle s t (sets_sdds o e) h v = after e ((others-IsSingle s.component v).1 o)
  Step-IsSingle s t (sets_network o e) h v = after e ((others-IsSingle s.component v).2 o)
  Step-IsSingle s t (connects id cs e) h v =
      after e
        (if_both IsSingle s.component.started _ _ (connections-IsSingle id cs s.component v) v)
  Step-IsSingle s t (starts os rest idle usable e) h v =
      after e (Lowers-IsSingle s.component _ (setup_socket-Lowers os s.component) v)
  Step-IsSingle s t (fails os rest idle unusable e) h v =
      after e (Lowers-IsSingle s.component _ (setup_socket-Lowers os s.component) v)
  Step-IsSingle s t (runs n control rs order e) h v = after e (
      Lowers-IsSingle s.component _
        (with_proc-Lowers n _ s.component
          (connect_and_run-AtMost rs s.component (proc n s.component)))
        v)
  Step-IsSingle s t (started c e) h v = after e (omega arith)
  Step-IsSingle s t (tells c e) h v = after e (omega arith)
  Step-IsSingle s t (halts c e) h v = after e (omega arith)
  Step-IsSingle s t (gives_up c e) h v = after e (omega arith)
  Step-IsSingle s t (joins n control order over e) h v = after e (
      Lowers-IsSingle s.component _
        (with_proc-Lowers n _ s.component (join-AtMost E [] (proc n s.component))) v)
  Step-IsSingle s t (closes c e) h v = after e (others-IsSingle s.component v).3

  -- From a component that has just been constructed, over every sequence of steps in which each callback
  -- is served while no stream is active: at most one stream is active and at most one is on deck.
  pub Reach-IsSingle :
      (f x o : Uninitialized) (s : System) (steps : Reach E (initial E f x o) s)
      → AllPrompt steps
      → IsSingle s.component
  unfolding initial create Lifecycle.create
  Reach-IsSingle f x o _ here h = omega arith
  Reach-IsSingle f x o _ (next r st) (before, prompt) =
      Step-IsSingle _ _ st prompt (Reach-IsSingle f x o _ r before)

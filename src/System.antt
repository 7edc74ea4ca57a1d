-- ===== src/System.antt =====
-- The component of cpp/SinkSDDS.cpp with the threads of its processors and the callbacks that they
-- start, interleaved. A method that holds `m_stream_lock` is one step. `start` and `stop` hold no lock and
-- are several; the framework makes one such call at a time. The other methods, which hold no lock
-- either, are one step all the same: removeStream, the property setters and newConnectionMade. A thread
-- that a step has to wait for gets to its end in that step, except where `stop` waits.
pub mod Attention
pub mod Forward
pub mod Attended
pub mod Everywhere
pub mod Sound
pub mod Widths
pub mod Single
pub mod Races
pub mod Starving
pub mod Waiting
pub mod Schedules
use sink_sdds.Base.{ℕ, suc, ◌+◌, ◌<◌, ◌≡◌, String, Bool, true, false, List, [], not, ◌&&◌}
use sink_sdds.Settings.{NetworkSettings, SddsSettings, OverrideSddsHeader}
use sink_sdds.Processor.Types.{Native, octet, short, float, Env, Read, Stream, Processor}
use sink_sdds.Processor.Loop.{shutdown}
use sink_sdds.Processor.Loop.Frame.{callbacks}
use sink_sdds.Processor.Lifecycle.{Uninitialized, join}
use sink_sdds.Processor.Moves.{Move}
use sink_sdds.Sockets.{Os}
use sink_sdds.Component.{
  Component, proc, with_proc, create, new_stream, streams_done, remove_stream,
}
use sink_sdds.Component.Session.{
  set_override_sdds_header_struct, set_sdds_settings_struct, set_network_settings_struct, configure,
  setup_socket, usable, connect_and_run, close_connection, new_connection_made,
}
use sink_sdds.Component.Session.Lifetime.{is_alive}

-- How far a call of `start` or `stop` has got: what it does next.
pub data Control : Type 0 where
  at_rest run_octet run_short run_float set_started told join_float join_short join_octet close :
      Control

pub record System : Type 0 where
  pub component : Component
  pub control : Control
  -- the calls of `streamsDone` that have been served
  pub handled : ℕ

-- The threads that call `streamsDone`, over all time.
abbrev pub called_back : Component → ℕ
called_back c =
    callbacks c.floatproc.calls + callbacks c.shortproc.calls + callbacks c.octetproc.calls

abbrev pub configured : Component → Component
configured c = record c {
  floatproc = configure c c.floatproc;
  shortproc = configure c c.shortproc;
  octetproc = configure c c.octetproc;
}

-- The processor that `start` runs next, or that `stop` joins next, and what follows.
pub data Runs : Native → Control → Control → Type 0 where
  octet_first : Runs octet run_octet run_short
  short_second : Runs short run_short run_float
  float_third : Runs float run_float set_started

pub data Joins : Native → Control → Control → Type 0 where
  float_first : Joins float join_float join_short
  short_second : Joins short join_short join_octet
  octet_third : Joins octet join_octet close

pub data Step (E : Env) (s t : System) : Type 0 where
  arrives :
      (n : Native) (rs : List Read) (x : Stream)
      → t ≡ record s { component = new_stream E rs n x s.component }
      → Step E s t
  removed :
      (n : Native) (rs : List Read) (x : Stream)
      → t ≡ record s { component = remove_stream E rs n x s.component }
      → Step E s t
  calls_back :
      (rs : List Read)
      → s.handled < called_back s.component
      → t ≡ record s { component = streams_done E rs s.component; handled = suc s.handled }
      → Step E s t
  moves :
      (n : Native) (p : Processor)
      → Move E (proc n s.component) p
      → t ≡ record s { component = with_proc n p s.component }
      → Step E s t
  sets_override :
      (o : OverrideSddsHeader)
      → t ≡ record s { component = set_override_sdds_header_struct o s.component }
      → Step E s t
  sets_sdds :
      (o : SddsSettings)
      → t ≡ record s { component = set_sdds_settings_struct o s.component }
      → Step E s t
  sets_network :
      (o : NetworkSettings)
      → t ≡ record s { component = set_network_settings_struct o s.component }
      → Step E s t
  connects :
      (id : String) (connections : List (String × String))
      → t ≡ record s { component = new_connection_made id connections s.component }
      → Step E s t
  starts :
      (os : Os)
      → s.control ≡ at_rest
      → s.component.started ≡ false
      → usable (setup_socket os (configured s.component)).1 ≡ true
      → t
        ≡ record s { component = (setup_socket os (configured s.component)).0; control = run_octet }
      → Step E s t
  fails :
      (os : Os)
      → s.control ≡ at_rest
      → s.component.started ≡ false
      → usable (setup_socket os (configured s.component)).1 ≡ false
      → t ≡ record s { component = (setup_socket os (configured s.component)).0 }
      → Step E s t
  runs :
      (n : Native) (after : Control) (rs : List Read)
      → Runs n s.control after
      → t ≡ record s {
        component = with_proc n (connect_and_run E rs s.component (proc n s.component)) s.component;
        control = after;
      }
      → Step E s t
  started :
      s.control ≡ set_started
      → t ≡ record s { component = record (s.component) { started = true }; control = at_rest }
      → Step E s t
  tells :
      s.control ≡ at_rest
      → t ≡ record s {
        component = record (s.component) {
          floatproc = shutdown s.component.floatproc;
          shortproc = shutdown s.component.shortproc;
          octetproc = shutdown s.component.octetproc;
        };
        control = told;
      }
      → Step E s t
  halts :
      s.control ≡ told
      → t ≡ record s { component = record (s.component) { started = false }; control = join_float }
      → Step E s t
  -- `stopThread` returns false, and `stop` throws StopError
  gives_up :
      s.control ≡ told
      → t ≡ record s { component = record (s.component) { started = false }; control = at_rest }
      → Step E s t
  joins :
      (n : Native) (after : Control)
      → Joins n s.control after
      → is_alive (proc n s.component).thread ≡ false
      → t ≡ record s {
        component = with_proc n (join E [] (proc n s.component)) s.component;
        control = after;
      }
      → Step E s t
  closes :
      s.control ≡ close
      → t ≡ record s { component = close_connection s.component; control = at_rest }
      → Step E s t

pub data Reach (E : Env) (s : System) : System → Type 0 where
  here : Reach E s s
  next : {t u : System} → Reach E s t → Step E t u → Reach E s u

-- A component that has been constructed.
unfoldable pub initial : Env → Uninitialized → Uninitialized → Uninitialized → System
unfolding create
initial E f s o = record { component = create E f s o; control = at_rest; handled = 0 }

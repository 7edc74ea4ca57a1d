-- ===== src/Processor/Lifecycle.antt =====
-- The other methods of the class in cpp/BulkIOToSDDSProcessor.cpp: its construction, the setters, and
-- the control of the thread. Where a method waits for the thread, `reads` is what the stream still
-- answers to it.
pub mod Restart
use text.Mathlib.Text.{◌==◌ as str_eq}
use sink_sdds.Base.{ℕ, String, Bool, true, false, ◌&&◌, none, List, [], if◌then◌else◌, ◌%◌}
use sink_sdds.Settings.{
  SddsSettings, AttachSettings, OverrideSddsHeader, default_sdds_settings, default_attach_settings,
  default_override,
}
use sink_sdds.Packet.Header.{Header}
use sink_sdds.Processor.Types.{
  Native, Env, Read, Stream, Sri, PrecisionTime, Connection, Thread, null, spawned, testing,
  reading, finished, Processor,
}
use sink_sdds.Processor.Template.{initialize_sdds_header, override_sdds_header, default_bps}
use sink_sdds.Processor.Calls.{call_attach}
use sink_sdds.Processor.Loop.{shutdown, loop, resume, end_run, run_thread}

-- The members that the constructor leaves as the memory was: the header template but for what
-- `initializeSDDSHeader` sets, the time, the connection; and the stream and SRI as BulkIO makes them.
pub record Uninitialized : Type 0 where
  pub template : Header
  pub current_time : PrecisionTime
  pub connection : Connection
  pub stream : Stream
  pub sri : Sri

unfoldable pub create : Env → Native → Uninitialized → Processor
create E native u = record {
  native = native;
  first_run = true;
  thread = null;
  shutdown_flag = false;
  running = false;
  active_stream = false;
  vlan = 0;
  stream = u.stream;
  current_time = u.current_time;
  user_settings = default_sdds_settings;
  sri = u.sri;
  template = initialize_sdds_header E.floats native u.template;
  connection = u.connection;
  seq = 0;
  override = default_override E.floats;
  attach_settings = default_attach_settings;
  calls = [];
}

abbrev pub is_active : Processor → Bool
is_active p = p.active_stream

abbrev pub get_stream_id : Processor → String
get_stream_id p = p.stream.stream_id

unfoldable pub set_sdds_settings : SddsSettings → Processor → Processor
set_sdds_settings settings p = if p.running then p else record p {
  template = record (p.template) {
    sf = settings.standard_format % 2;
    of = settings.original_format % 2;
    ss = settings.spectral_sense % 2;
  };
  user_settings = settings;
}

unfoldable pub set_override_header_settings : OverrideSddsHeader → Processor → Processor
set_override_header_settings o p = record p { override = o }

unfoldable pub set_attach_settings : AttachSettings → Processor → Processor
set_attach_settings a p = record p { attach_settings = a }

unfoldable pub set_connection : Connection → ℕ → Processor → Processor
set_connection connection vlan p = record p { connection = connection; vlan = vlan }

-- What a thread still does until it is over.
unfoldable pub complete : Env → List Read → Thread → Processor → Processor
unfolding run_thread
complete E reads null p = p
complete E reads spawned p = run_thread E reads p
complete E reads testing p = end_run (loop E reads p)
complete E reads reading p = end_run (resume E reads p)
complete E reads finished p = p

-- Waits until the thread is over, and forgets it.
unfoldable pub join : Env → List Read → Processor → Processor
unfolding complete
join E reads p = record (complete E reads p.thread p) { thread = null }

-- Whether the pointer is not NULL.
abbrev pub has_thread : Thread → Bool
has_thread null = false
has_thread spawned = true
has_thread testing = true
has_thread reading = true
has_thread finished = true

-- Attaches, overrides the header, and starts the thread.
unfoldable pub launch : Env → Processor → Processor
launch E p =
    let attached = call_attach E none p in
    record attached {
      template = override_sdds_header E.floats attached.override attached.template;
      thread = spawned;
    }

unfoldable pub run : Env → List Read → Processor → Processor
unfolding launch join
run E reads p =
    let ready = (if has_thread p.thread then join E reads p else p) in
    if has_thread p.thread && p.running
    then p
    else (if ready.active_stream then launch E ready else ready)

unfoldable pub set_stream : Stream → Processor → Processor
set_stream s p = if p.active_stream then p else record p {
  stream = s;
  active_stream = true;
  template =
      (if p.override.enabled
        then p.template
        else record (p.template) { bps = default_bps p.native % 32 });
}

unfoldable pub remove_stream : Env → List Read → Stream → Processor → Processor
unfolding join shutdown
remove_stream E reads s p =
    if p.active_stream && str_eq p.stream.stream_id s.stream_id
    then (if p.running then join E reads (shutdown p) else p)
    else p

-- The destructor's part that changes state.
unfoldable pub destroy : Env → List Read → Processor → Processor
unfolding join shutdown
destroy E reads p = if has_thread p.thread then join E reads (shutdown p) else p

-- ===== src/Component.antt =====
-- cpp/SinkSDDS.cpp, cpp/SinkSDDS.h and the start and stop of cpp/SinkSDDS_base.cpp. The methods that
-- hold `m_stream_lock` are one step each. Whether the component is started is kept by the framework's
-- base class, whose `start` and `stop` set it.
pub mod Session
pub mod Decks
pub mod Handover
pub mod Framework
use sink_sdds.Base.{
  String, Bool, true, false, Option, none, some, List, [], ◌∷◌, ◌++◌, ◌||◌, if◌then◌else◌,
}
use sink_sdds.Settings.{
  NetworkSettings, SddsSettings, AttachSettings, OverrideSddsHeader, Status,
  default_network_settings, default_sdds_settings, default_attach_settings, default_override,
}
use sink_sdds.Processor.Types.{
  Native, octet, short, float, Env, Read, Stream, Connection, Processor,
}
use sink_sdds.Processor.Lifecycle
use sink_sdds.Processor.Lifecycle.{Uninitialized, is_active, get_stream_id}

pub record Component : Type 0 where
  pub floatproc : Processor
  pub shortproc : Processor
  pub octetproc : Processor
  pub float_on_deck : List Stream
  pub short_on_deck : List Stream
  pub octet_on_deck : List Stream
  pub started : Bool
  pub network_settings : NetworkSettings
  pub sdds_settings : SddsSettings
  pub attach_settings : AttachSettings
  pub override_sdds_header : OverrideSddsHeader
  pub connection : Connection

abbrev pub no_connection : Connection
no_connection = record { sock = 0; address = 0; port = 0 }

unfoldable pub create : Env → Uninitialized → Uninitialized → Uninitialized → Component
create E f s o = record {
  floatproc = Lifecycle.create E float f;
  shortproc = Lifecycle.create E short s;
  octetproc = Lifecycle.create E octet o;
  float_on_deck = [];
  short_on_deck = [];
  octet_on_deck = [];
  started = false;
  network_settings = default_network_settings;
  sdds_settings = default_sdds_settings;
  attach_settings = default_attach_settings;
  override_sdds_header = default_override E.floats;
  connection = no_connection;
}

-- The processor and the list on deck for one kind of port.
abbrev pub proc : Native → Component → Processor
proc octet c = c.octetproc
proc short c = c.shortproc
proc float c = c.floatproc

abbrev pub with_proc : Native → Processor → Component → Component
with_proc octet p c = record c { octetproc = p }
with_proc short p c = record c { shortproc = p }
with_proc float p c = record c { floatproc = p }

abbrev pub deck : Native → Component → List Stream
deck octet c = c.octet_on_deck
deck short c = c.short_on_deck
deck float c = c.float_on_deck

abbrev pub with_deck : Native → List Stream → Component → Component
with_deck octet d c = record c { octet_on_deck = d }
with_deck short d c = record c { short_on_deck = d }
with_deck float d c = record c { float_on_deck = d }

abbrev nonempty : List Stream → Bool
nonempty [] = false
nonempty (s ∷ ss) = true

-- `vector::back`
abbrev pub back : List Stream → Option Stream
back [] = none
back (s ∷ []) = some s
back (s ∷ t ∷ ss) = back (t ∷ ss)

unfoldable pub stream_is_on_deck : Component → Bool
stream_is_on_deck c =
    nonempty c.float_on_deck || nonempty c.short_on_deck || nonempty c.octet_on_deck

unfoldable pub stream_is_active : Component → Bool
stream_is_active c = is_active c.floatproc || is_active c.shortproc || is_active c.octetproc

unfoldable pub drop_on_deck_stream : Component → Component
drop_on_deck_stream c =
    let f = (if nonempty c.float_on_deck then record c { float_on_deck = [] } else c) in
    let s = (if nonempty f.short_on_deck then record f { short_on_deck = [] } else f) in
    if nonempty s.octet_on_deck then record s { octet_on_deck = [] } else s

-- A stream is given to its processor, which runs if the component is started.
abbrev pub give : Env → List Read → Native → Stream → Component → Component
give E reads n s c =
    let p = Lifecycle.set_stream s (proc n c) in
    with_proc n (if c.started then Lifecycle.run E reads p else p) c

-- The body that `setFloatStream`, `setShortStream` and `setOctetStream` share but for the port.
unfoldable pub new_stream : Env → List Read → Native → Stream → Component → Component
unfolding stream_is_active stream_is_on_deck drop_on_deck_stream
new_stream E reads n s c =
    if stream_is_active c
    then (let cleared = (if stream_is_on_deck c then drop_on_deck_stream c else c) in
        with_deck n (deck n cleared ++ record s { enabled = false } ∷ []) cleared)
    else give E reads n s c

unfoldable pub set_float_stream : Env → List Read → Stream → Component → Component
unfolding new_stream
set_float_stream E reads s c = new_stream E reads float s c

unfoldable pub set_short_stream : Env → List Read → Stream → Component → Component
unfolding new_stream
set_short_stream E reads s c = new_stream E reads short s c

unfoldable pub set_octet_stream : Env → List Read → Stream → Component → Component
unfolding new_stream
set_octet_stream E reads s c = new_stream E reads octet s c

-- One branch of `streamsDone`.
unfoldable pub promote : Env → List Read → Native → Stream → Component → Component
promote E reads n s c = with_deck n [] (give E reads n (record s { enabled = true }) c)

unfoldable pub streams_done : Env → List Read → Component → Component
unfolding promote
streams_done E reads c = elim (back c.float_on_deck) [
  | some s ↦ promote E reads float s c
  | none ↦ elim (back c.short_on_deck) [
    | some s ↦ promote E reads short s c
    | none ↦ elim (back c.octet_on_deck) [ some s ↦ promote E reads octet s c | none ↦ c ]
  ]
]

abbrev or_else : Option Stream → String → String
or_else none d = d
or_else (some s) d = s.stream_id

unfoldable pub get_status : Component → Status
get_status c = record {
  current_stream =
      (if is_active c.floatproc
        then get_stream_id c.floatproc
        else (if is_active c.shortproc
            then get_stream_id c.shortproc
            else (if is_active c.octetproc then get_stream_id c.octetproc else "")));
  stream_on_deck =
      or_else (back c.float_on_deck)
        (or_else (back c.short_on_deck) (or_else (back c.octet_on_deck) ""));
}

-- The listener of the stream removal of each port.
unfoldable pub remove_stream : Env → List Read → Native → Stream → Component → Component
remove_stream E reads n s c = with_proc n (Lifecycle.remove_stream E reads s (proc n c)) c

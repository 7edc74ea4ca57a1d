-- ===== src/Tests/Samples.antt =====
-- A platform, streams, processors and a component to try the theorems on.
use sink_sdds.Base.{
  replicate, ◌+◌, ◌-◌, ◌*◌, ◌/◌, ◌%◌, ◌^◌, true, false, none, some, [], ◌∷◌, ltb, ◌==◌, codes,
  same_text, if◌then◌else◌,
}
use sink_sdds.Float.{FloatOps}
use sink_sdds.Settings.{SddsSettings, AttachSettings, OverrideSddsHeader, NetworkSettings}
use sink_sdds.Packet.Header.{Header}
use sink_sdds.Processor.Types.{
  Native, octet, short, float, Env, Read, Block, Stream, Sri, PrecisionTime, Connection, null,
  Processor,
}
use sink_sdds.Component.{Component}
use sink_sdds.Sockets.{Os, Device}

-- Whole numbers in place of floating point.
abbrev pub whole : FloatOps
whole = record {
  lit = λ m k. m / 10 ^ k;
  mul = λ a b. a * b;
  div = λ a b. a / b;
  add = λ a b. a + b;
  sub = λ a b. a - b;
  floor = λ a. a;
  ltb = ltb;
  eq = λ a b. a == b;
  of_u64 = λ a. a;
  of_i64 = λ a. a;
  to_u64 = λ a. a % 2 ^ 64;
  to_u32 = λ a. a % 2 ^ 32;
  to_i32 = λ a. a % 2 ^ 32;
}

-- A system on which every datagram is sent.
abbrev pub env : Env
env = record {
  floats = whole;
  sendmsg = λ _ _ _. true;
  time = λ _. 86400;
  gmtime = λ _. record { sec = 0; min = 0; hour = 0; mday = 2; mon = 0; year = 70 };
  mktime = λ _. 0;
  timezone = 0;
  tcs_valid = 1;
}

-- A system on which no datagram is.
abbrev pub refusing : Env
refusing = record env { sendmsg = λ _ _ _. false }

abbrev pub header : Header
header = record {
  dmode = 2;
  ss = 0;
  of = 0;
  pp = 0;
  sos = 0;
  sf = 1;
  bps = 16;
  unused = 0;
  cx = 0;
  seq = 0;
  msptr = 0x13E0;
  msdel = 0;
  ttag = 0;
  ttage = 0;
  dfdt = 0;
  freq = 0;
  ssd = 7 ∷ 8 ∷ [];
  aad = replicate 20 1;
}

abbrev pub sri : Sri
sri = record { mode = 0; xdelta = 1; keywords = [] }

abbrev pub now : PrecisionTime
now = record { tcstatus = 1; twsec = 100; tfsec = 0 }

abbrev pub stream_a : Stream
stream_a = record { stream_id = "A"; sri = sri; eos = false; enabled = true }

abbrev pub stream_b : Stream
stream_b = record { stream_id = "B"; sri = sri; eos = false; enabled = false }

-- Two shorts.
abbrev pub block : Block
block = record { elements = 0x0102 ∷ 0xFFFE ∷ []; timestamp = now; sri = sri; sri_changed = true }

abbrev pub read : Read
read = record { block = λ _. some block; stream = stream_a; interrupted = true }

abbrev pub last_read : Read
last_read = record {
  block = λ _. none;
  stream = record stream_a { eos = true };
  interrupted = false;
}

abbrev pub connection : Connection
connection = record { sock = 5; address = 0x010000E0; port = 14195 }

abbrev pub settings : SddsSettings
settings = record {
  standard_format = 1;
  original_format = 0;
  spectral_sense = 0;
  endian_representation = 1;
}

abbrev pub attach_settings : AttachSettings
attach_settings = record {
  time_tag_valid = true;
  user_id = "anonymous";
  downstream_give_sri_priority = true;
}

abbrev pub override : OverrideSddsHeader
override = record {
  enabled = true;
  dmode = 9;
  bps = 33;
  cx = 1;
  msv = 1;
  ttv = 0;
  sscv = 5;
  msptr = 2049;
  msdel = 0x0102;
  frequency = 3;
  dfdt = 2;
}

-- A processor that has no thread and no stream.
abbrev pub idle : Native → Processor
idle native = record {
  native = native;
  first_run = true;
  thread = null;
  shutdown_flag = false;
  running = false;
  active_stream = false;
  vlan = 0;
  stream = stream_b;
  current_time = now;
  user_settings = settings;
  sri = sri;
  template = header;
  connection = connection;
  seq = 30;
  override = record override { enabled = false };
  attach_settings = attach_settings;
  calls = [];
}

-- The same with a stream.
abbrev pub holding : Native → Processor
holding native = record (idle native) { active_stream = true; stream = stream_a }

abbrev pub network : NetworkSettings
network = record {
  interface = codes "eth0";
  ip_address = codes "224.1.1.1";
  port = 29495;
  vlan = 0;
}

abbrev pub component : Component
component = record {
  floatproc = idle float;
  shortproc = idle short;
  octetproc = idle octet;
  float_on_deck = [];
  short_on_deck = [];
  octet_on_deck = [];
  started = false;
  network_settings = network;
  sdds_settings = settings;
  attach_settings = attach_settings;
  override_sdds_header = override;
  connection = connection;
}

-- A short stream is active, and a float stream is on deck.
abbrev pub busy : Component
busy = record component { shortproc = holding short; float_on_deck = stream_b ∷ [] }

abbrev pub device : Device
device = record {
  name = codes "eth0";
  address = 0x0100000A;
  flags_read = true;
  up = true;
  loopback = false;
  multicast = true;
  index = some 2;
}

-- A system with one device, on which 224.1.1.1 is the only address that is not taken as 224.0.0.0 or
-- 239.255.255.250.
abbrev pub os : Os
os = record {
  socket = 5;
  reuse_address = true;
  malloc = true;
  devices = some (device ∷ []);
  inet_aton = λ _. some 0x010101E0;
  inet_addr = λ _. 0x010101E0;
  inet_network = λ t.
      if same_text t (codes "224.1.1.1")
      then 0xE0010101
      else (if same_text t (codes "224.0.0.0") then 0xE0000000 else 0xEFFFFFFA);
  set_multicast_if = λ _ _ _. true;
  bind = λ _. true;
  add_membership = λ _ _ _. true;
  set_ttl = λ _. true;
}

-- ===== src/Processor/Types.antt =====
-- What BulkIOToSDDSProcessor holds, and what it exchanges with BulkIO, the socket and the system
-- (cpp/BulkIOToSDDSProcessor.h).
use sink_sdds.Base.{ℕ, String, Bool, List, Option}
use sink_sdds.Float.{Double, FloatOps}
use sink_sdds.Settings.{SddsSettings, AttachSettings, OverrideSddsHeader}
use sink_sdds.Packet.Header.{Header}

-- The three instantiations of the template, by NATIVE_TYPE.
pub data Native : Type 0 where
  octet short float : Native

abbrev pub sizeof : Native → ℕ
sizeof octet = 1
sizeof short = 2
sizeof float = 4

-- A CORBA::Any that holds a long, or anything else.
pub data AnyValue : Type 0 where
  long : ℕ → AnyValue
  other : String → AnyValue

pub record Keyword : Type 0 where
  pub id : String
  pub value : AnyValue

pub record Sri : Type 0 where
  pub mode : ℕ
  pub xdelta : Double
  pub keywords : List Keyword

pub record PrecisionTime : Type 0 where
  pub tcstatus : ℕ
  pub twsec : Double
  pub tfsec : Double

-- A handle of a BulkIO input stream. BulkIO updates `sri` and `eos` as data is read.
pub record Stream : Type 0 where
  pub stream_id : String
  pub sri : Sri
  pub eos : Bool
  pub enabled : Bool

-- A block of data; an element is the bit pattern of one NATIVE_TYPE.
pub record Block : Type 0 where
  pub elements : List ℕ
  pub timestamp : PrecisionTime
  pub sri : Sri
  pub sri_changed : Bool

-- One return of the blocking `read`: the block, if there is one, for the number of samples that was
-- asked for; the stream handle afterwards; and whether another thread called `shutdown` meanwhile.
pub record Read : Type 0 where
  pub block : ℕ → Option Block
  pub stream : Stream
  pub interrupted : Bool

pub record Connection : Type 0 where
  pub sock : ℕ
  pub address : ℕ
  pub port : ℕ

-- A datagram as the scatter and gather array describes it: header, payload, number of zeros.
pub record Message : Type 0 where
  pub header : Header
  pub payload : List ℕ
  pub padding : ℕ

pub data DataFormat : Type 0 where
  sdds_cb sdds_sb sdds_ci sdds_si sdds_cf sdds_sf : DataFormat

-- `multicast_address` and `port` are in network order, as in the connection.
pub record StreamDefinition : Type 0 where
  pub stream_id : String
  pub data_format : DataFormat
  pub sample_rate : Double
  pub time_tag_valid : Bool
  pub multicast_address : ℕ
  pub vlan : ℕ
  pub port : ℕ

-- The calls that leave the class. A target of `none` is the output port, for all its connections.
-- `send` has the socket, the datagram and whether `sendmsg` accepted it.
pub data Call : Type 0 where
  attach : Option String → StreamDefinition → String → Call
  detach : String → Call
  push_sri : Option String → Sri → PrecisionTime → Call
  send : ℕ → Message → Bool → Call
  streams_done : String → Call

pub record Tm : Type 0 where
  pub sec : ℕ
  pub min : ℕ
  pub hour : ℕ
  pub mday : ℕ
  pub mon : ℕ
  pub year : ℕ

-- The platform: floating point, the socket and the clock, whose answers may depend on all calls
-- made so far, and the constant BULKIO::TCS_VALID. A `time_t` and `timezone` are 64-bit patterns.
pub record Env : Type 0 where
  pub floats : FloatOps
  pub sendmsg : List Call → ℕ → Message → Bool
  pub time : List Call → ℕ
  pub gmtime : ℕ → Tm
  pub mktime : Tm → ℕ
  pub timezone : ℕ
  pub tcs_valid : ℕ

-- `m_processorThread`: NULL, or an object whose thread has not begun, is about to test `m_shutdown`,
-- is blocked in the read of the loop's body, or is over.
pub data Thread : Type 0 where
  null spawned testing reading finished : Thread

-- The members of the class; `native` is the template's argument, and `calls` is not a member but
-- the calls made so far, oldest first.
pub record Processor : Type 0 where
  pub native : Native
  pub first_run : Bool
  pub thread : Thread
  pub shutdown_flag : Bool
  pub running : Bool
  pub active_stream : Bool
  pub vlan : ℕ
  pub stream : Stream
  pub current_time : PrecisionTime
  pub user_settings : SddsSettings
  pub sri : Sri
  pub template : Header
  pub connection : Connection
  pub seq : ℕ
  pub override : OverrideSddsHeader
  pub attach_settings : AttachSettings
  pub calls : List Call

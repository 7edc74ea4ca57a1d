-- ===== src/Settings.antt =====
-- The property structures of cpp/struct_props.h with the values that their constructors set. A
-- `short`, `unsigned short` or `CORBA::Long` is its bit pattern.
pub mod Equality
pub mod Conversion
use sink_sdds.Base.{ℕ, String, Bool, true, false, Text, codes}
use sink_sdds.Float.{Double, FloatOps}

pub record NetworkSettings : Type 0 where
  pub interface : Text
  pub ip_address : Text
  pub port : ℕ
  pub vlan : ℕ

unfoldable pub default_network_settings : NetworkSettings
default_network_settings = record {
  interface = codes "eth0";
  ip_address = codes "127.0.0.1";
  port = 29495;
  vlan = 0;
}

pub record SddsSettings : Type 0 where
  pub standard_format : ℕ
  pub original_format : ℕ
  pub spectral_sense : ℕ
  pub endian_representation : ℕ

unfoldable pub default_sdds_settings : SddsSettings
default_sdds_settings = record {
  standard_format = 1;
  original_format = 0;
  spectral_sense = 0;
  endian_representation = 1;
}

pub record AttachSettings : Type 0 where
  pub time_tag_valid : Bool
  pub user_id : String
  pub downstream_give_sri_priority : Bool

unfoldable pub default_attach_settings : AttachSettings
default_attach_settings = record {
  time_tag_valid = true;
  user_id = "anonymous";
  downstream_give_sri_priority = false;
}

pub record OverrideSddsHeader : Type 0 where
  pub enabled : Bool
  pub dmode : ℕ
  pub bps : ℕ
  pub cx : ℕ
  pub msv : ℕ
  pub ttv : ℕ
  pub sscv : ℕ
  pub msptr : ℕ
  pub msdel : ℕ
  pub frequency : Double
  pub dfdt : Double

unfoldable pub default_override : FloatOps → OverrideSddsHeader
default_override F = record {
  enabled = false;
  dmode = 0;
  bps = 0;
  cx = 0;
  msv = 0;
  ttv = 0;
  sscv = 0;
  msptr = 0;
  msdel = 0;
  frequency = F.lit 0 0;
  dfdt = F.lit 0 0;
}

pub record Status : Type 0 where
  pub current_stream : String
  pub stream_on_deck : String

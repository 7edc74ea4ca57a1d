-- ===== src/Tests/Conversions.antt =====
-- The theorems on the conversion of the property structures, on a small framework.
use text.Mathlib.Text.{◌==◌ as str_eq}
use sink_sdds.Base.{
  ℕ, String, ◌≡◌, refl, Bool, true, false, Option, none, some, if◌then◌else◌, Text, codes,
}
use sink_sdds.Settings.{NetworkSettings, OverrideSddsHeader, Status}
use sink_sdds.Settings.Conversion.{
  PropertyMaps, extract_network, insert_network, extract_sdds, insert_sdds, extract_attach,
  insert_attach, extract_override, insert_override, extract_status, insert_status,
}
use sink_sdds.Settings.Conversion.RoundTrip.{IsLawful, extract-insert}
use sink_sdds.Tests.Samples.{network, settings, attach_settings, override}

mutual
  data Value : Type 0 where
    nothing : Value
    mapping : Entries → Value
    chars : Text → Value
    string : String → Value
    flag : Bool → Value
    short ushort long double : ℕ → Value

  data Entries : Type 0 where
    no_entry : Entries
    entry : String → Value → Entries → Entries

abbrev has : String → Entries → Bool
has id no_entry = false
has id (entry j v m) = if str_eq j id then true else has id m

abbrev at : String → Entries → Value
at id no_entry = nothing
at id (entry j v m) = if str_eq j id then v else at id m

abbrev as_mapping : Value → Option Entries
as_mapping (mapping m) = some m
as_mapping _ = none

abbrev as_text : Value → Option Text
as_text (chars v) = some v
as_text _ = none

abbrev as_string : Value → Option String
as_string (string v) = some v
as_string _ = none

abbrev as_flag : Value → Option Bool
as_flag (flag v) = some v
as_flag _ = none

abbrev as_short : Value → Option ℕ
as_short (short v) = some v
as_short _ = none

abbrev as_ushort : Value → Option ℕ
as_ushort (ushort v) = some v
as_ushort _ = none

abbrev as_long : Value → Option ℕ
as_long (long v) = some v
as_long _ = none

abbrev as_double : Value → Option ℕ
as_double (double v) = some v
as_double _ = none

abbrev maps : PropertyMaps
maps = record {
  Any = Value;
  Map = Entries;
  empty = no_entry;
  contains = has;
  get = at;
  put = entry;
  map = record { inject = mapping; extract = as_mapping };
  text = record { inject = chars; extract = as_text };
  string = record { inject = string; extract = as_string };
  flag = record { inject = flag; extract = as_flag };
  short = record { inject = short; extract = as_short };
  ushort = record { inject = ushort; extract = as_ushort };
  long = record { inject = long; extract = as_long };
  double = record { inject = double; extract = as_double };
}

maps-IsLawful : IsLawful maps
maps-IsLawful = record {
  contains-put = λ id j a m. refl;
  get-put = λ id j a m. refl;
  map_back = λ m. refl;
  text_back = λ v. refl;
  string_back = λ v. refl;
  flag_back = λ v. refl;
  short_back = λ v. refl;
  ushort_back = λ v. refl;
  long_back = λ v. refl;
  double_back = λ v. refl;
}

abbrev other_network : NetworkSettings
other_network = record network { port = 5; vlan = 7 }

abbrev disabled : OverrideSddsHeader
disabled = record override { enabled = false; dmode = 0 }

abbrev idle_status : Status
idle_status = record { current_stream = ""; stream_on_deck = "" }

abbrev busy_status : Status
busy_status = record { current_stream = "A"; stream_on_deck = "B" }

extract-insert_example :
    (extract_network maps (insert_network maps network) other_network ≡ (network, true))
    × (extract_sdds maps (insert_sdds maps settings) settings ≡ (settings, true))
    × (extract_attach maps (insert_attach maps attach_settings) attach_settings
        ≡ (attach_settings, true))
    × (extract_override maps (insert_override maps override) disabled ≡ (override, true))
    × (extract_status maps (insert_status maps busy_status) idle_status ≡ (busy_status, true))
extract-insert_example =
    extract-insert maps maps-IsLawful network other_network settings settings attach_settings
      attach_settings override disabled busy_status idle_status

-- A map with a flag in place of the address.
abbrev wrong : Entries
wrong =
    entry "network_settings::interface" (chars (codes "eth1"))
      (entry "network_settings::ip_address" (flag true) no_entry)

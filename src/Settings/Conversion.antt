-- ===== src/Settings/Conversion.antt =====
-- The operators `>>=` and `<<=` of cpp/struct_props.h, between a property structure and a CORBA::Any
-- that holds a property map. The framework's Any and redhawk::PropertyMap are a parameter.

pub mod RoundTrip
use sink_sdds.Base.{ℕ, String, Bool, true, false, Option, none, some, if◌then◌else◌, Text}
use sink_sdds.Float.{Double}
use sink_sdds.Settings.{NetworkSettings, SddsSettings, AttachSettings, OverrideSddsHeader, Status}

-- A value of C++ in an Any: `<<=`, and `>>=`, which fails if the Any holds something else.
pub record Codec (Any : Type 0) (A : Type 0) : Type 0 where
  pub inject : A → Any
  pub extract : Any → Option A

-- A std::string is a `Text` or a `String` here, as in the structures.
pub record PropertyMaps : Type 1 where
  pub Any : Type 0
  pub Map : Type 0
  pub empty : Map
  pub contains : String → Map → Bool
  pub get : String → Map → Any
  pub put : String → Any → Map → Map
  pub map : Codec Any Map
  pub text : Codec Any Text
  pub string : Codec Any String
  pub flag : Codec Any Bool
  pub short : Codec Any ℕ
  pub ushort : Codec Any ℕ
  pub long : Codec Any ℕ
  pub double : Codec Any Double

-- `false` is returned for a failure, with the structure as it is by then.
abbrev pub or_fail : {A S : Type 0} → Option A → (A → S × Bool) → S → S × Bool
or_fail none next s = (s, false)
or_fail (some v) next s = next v

module _ (M : PropertyMaps) where
  open M use {
    Any, Map, empty, contains, get, put, map, text, string, flag, short, ushort, long, double,
  }

  -- One `if (props.contains(id)) { if (!(props[id] >>= s.field)) return false; }`, on the structure
  -- that is filled, with what follows it.
  unfoldable pub member :
      {A S : Type 0} → Codec Any A → String → (A → S → S) → Map → (S → S × Bool) → S → S × Bool
  member c id set m next s =
      if contains id m then or_fail (c.extract (get id m)) (λ v. next (set v s)) s else next s

  abbrev pub finish : {S : Type 0} → S → S × Bool
  finish s = (s, true)

  abbrev pub with_map : {S : Type 0} → (Map → S → S × Bool) → Any → S → S × Bool
  with_map members a s = or_fail (map.extract a) (λ m. members m s) s

  unfoldable pub extract_network : Any → NetworkSettings → NetworkSettings × Bool
  extract_network = with_map λ m.
      member text "network_settings::interface" (λ v s. record s { interface = v }) m
        (member text "network_settings::ip_address" (λ v s. record s { ip_address = v }) m
          (member long "network_settings::port" (λ v s. record s { port = v }) m
            (member ushort "network_settings::vlan" (λ v s. record s { vlan = v }) m finish)))

  unfoldable pub insert_network : NetworkSettings → Any
  insert_network s =
      let m = put "network_settings::interface" (text.inject s.interface) empty in
      let m = put "network_settings::ip_address" (text.inject s.ip_address) m in
      let m = put "network_settings::port" (long.inject s.port) m in
      map.inject (put "network_settings::vlan" (ushort.inject s.vlan) m)

  unfoldable pub extract_sdds : Any → SddsSettings → SddsSettings × Bool
  extract_sdds = with_map λ m.
      member short "sdds_settings::standard_format" (λ v s. record s { standard_format = v }) m
        (member short "sdds_settings::original_format" (λ v s. record s { original_format = v }) m
          (member short "sdds_settings::spectral_sense" (λ v s. record s { spectral_sense = v }) m
            (member long "sdds_settings::endian_representation"
              (λ v s. record s { endian_representation = v }) m finish)))

  unfoldable pub insert_sdds : SddsSettings → Any
  insert_sdds s =
      let m = put "sdds_settings::standard_format" (short.inject s.standard_format) empty in
      let m = put "sdds_settings::original_format" (short.inject s.original_format) m in
      let m = put "sdds_settings::spectral_sense" (short.inject s.spectral_sense) m in
      map.inject
        (put "sdds_settings::endian_representation" (long.inject s.endian_representation) m)

  unfoldable pub extract_attach : Any → AttachSettings → AttachSettings × Bool
  extract_attach = with_map λ m.
      member flag "sdds_attach_settings::time_tag_valid" (λ v s. record s { time_tag_valid = v }) m
        (member string "sdds_attach_settings::user_id" (λ v s. record s { user_id = v }) m
          (member flag "sdds_attach_settings::downstream_should_use_sri"
            (λ v s. record s { downstream_give_sri_priority = v }) m finish))

  unfoldable pub insert_attach : AttachSettings → Any
  insert_attach s =
      let m = put "sdds_attach_settings::time_tag_valid" (flag.inject s.time_tag_valid) empty in
      let m = put "sdds_attach_settings::user_id" (string.inject s.user_id) m in
      map.inject (
        put "sdds_attach_settings::downstream_should_use_sri"
          (flag.inject s.downstream_give_sri_priority) m)

  unfoldable pub extract_override : Any → OverrideSddsHeader → OverrideSddsHeader × Bool
  extract_override = with_map λ m.
      member flag "override_sdds_header::enabled" (λ v s. record s { enabled = v }) m
        (member ushort "override_sdds_header::dmode" (λ v s. record s { dmode = v }) m
          (member ushort "override_sdds_header::bps" (λ v s. record s { bps = v }) m
            (member ushort "override_sdds_header::cx" (λ v s. record s { cx = v }) m
              (member ushort "override_sdds_header::msv" (λ v s. record s { msv = v }) m
                (member ushort "override_sdds_header::ttv" (λ v s. record s { ttv = v }) m
                  (member ushort "override_sdds_header::sscv" (λ v s. record s { sscv = v }) m
                    (member ushort "override_sdds_header::msptr" (λ v s. record s { msptr = v }) m
                      (member ushort "override_sdds_header::msdel" (λ v s. record s { msdel = v }) m
                        (member double "override_sdds_header::frequency"
                          (λ v s. record s { frequency = v }) m
                          (member double "override_sdds_header::dfdt" (λ v s. record s { dfdt = v })
                            m finish))))))))))

  unfoldable pub insert_override : OverrideSddsHeader → Any
  insert_override s =
      let m = put "override_sdds_header::enabled" (flag.inject s.enabled) empty in
      let m = put "override_sdds_header::dmode" (ushort.inject s.dmode) m in
      let m = put "override_sdds_header::bps" (ushort.inject s.bps) m in
      let m = put "override_sdds_header::cx" (ushort.inject s.cx) m in
      let m = put "override_sdds_header::msv" (ushort.inject s.msv) m in
      let m = put "override_sdds_header::ttv" (ushort.inject s.ttv) m in
      let m = put "override_sdds_header::sscv" (ushort.inject s.sscv) m in
      let m = put "override_sdds_header::msptr" (ushort.inject s.msptr) m in
      let m = put "override_sdds_header::msdel" (ushort.inject s.msdel) m in
      let m = put "override_sdds_header::frequency" (double.inject s.frequency) m in
      map.inject (put "override_sdds_header::dfdt" (double.inject s.dfdt) m)

  unfoldable pub extract_status : Any → Status → Status × Bool
  extract_status = with_map λ m.
      member string "status::current_stream" (λ v s. record s { current_stream = v }) m
        (member string "status::stream_on_deck" (λ v s. record s { stream_on_deck = v }) m finish)

  unfoldable pub insert_status : Status → Any
  insert_status s =
      let m = put "status::current_stream" (string.inject s.current_stream) empty in
      map.inject (put "status::stream_on_deck" (string.inject s.stream_on_deck) m)

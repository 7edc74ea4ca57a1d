-- ===== src/Settings/Equality.antt =====
-- The comparisons of the property structures of cpp/struct_props.h. Each returns false at the first member
-- that differs. Two values of type `double` are compared as the platform does.
use text.Mathlib.Text.{◌==◌ as str_eq}
use text.Mathlib.TextEquality.{eq_iff}
use sink_sdds.Base.{
  ◌≡◌, ◌↔◌, Bool, true, false, not, arith, if◌then◌else◌, ◌==◌, same_text, same_text_iff,
}
use sink_sdds.Settings.{NetworkSettings, SddsSettings, AttachSettings, OverrideSddsHeader, Status}
use sink_sdds.Float.{FloatOps}

abbrev same_flag : Bool → Bool → Bool
same_flag true b = b
same_flag false b = not b

unfoldable pub same_network : NetworkSettings → NetworkSettings → Bool
unfolding same_text
same_network s t =
    if not (same_text s.interface t.interface)
    then false
    else (if not (same_text s.ip_address t.ip_address)
        then false
        else (if not (s.port == t.port) then false else s.vlan == t.vlan))

unfoldable pub same_sdds : SddsSettings → SddsSettings → Bool
same_sdds s t =
    if not (s.standard_format == t.standard_format)
    then false
    else (if not (s.original_format == t.original_format)
        then false
        else (if not (s.spectral_sense == t.spectral_sense)
            then false
            else s.endian_representation == t.endian_representation))

unfoldable pub same_attach : AttachSettings → AttachSettings → Bool
same_attach s t =
    if not (same_flag s.time_tag_valid t.time_tag_valid)
    then false
    else (if not (str_eq s.user_id t.user_id)
        then false
        else same_flag s.downstream_give_sri_priority t.downstream_give_sri_priority)

unfoldable pub same_status : Status → Status → Bool
same_status s t =
    if not (str_eq s.current_stream t.current_stream)
    then false
    else str_eq s.stream_on_deck t.stream_on_deck

unfoldable pub same_override : FloatOps → OverrideSddsHeader → OverrideSddsHeader → Bool
same_override F s t =
    if not (same_flag s.enabled t.enabled)
    then false
    else (if not (s.dmode == t.dmode)
        then false
        else (if not (s.bps == t.bps)
            then false
            else (if not (s.cx == t.cx)
                then false
                else (if not (s.msv == t.msv)
                    then false
                    else (if not (s.ttv == t.ttv)
                        then false
                        else (if not (s.sscv == t.sscv)
                            then false
                            else (if not (s.msptr == t.msptr)
                                then false
                                else (if not (s.msdel == t.msdel)
                                    then false
                                    else (if not (F.eq s.frequency t.frequency)
                                        then false
                                        else F.eq s.dfdt t.dfdt)))))))))

same_flag_iff : (a b : Bool) → (same_flag a b ≡ true) ↔ (a ≡ b)
same_flag_iff true b = ground arith
same_flag_iff false b = ground arith

-- `==` on the network settings, the SDDS settings, the attach settings and the status holds exactly if
-- the two values agree in every member. On the override settings it holds exactly if they agree in every
-- member but frequency and dfdt, and the platform compares these two as equal.
same_settings_iff :
    (F : FloatOps) (n m : NetworkSettings) (s t : SddsSettings) (a b : AttachSettings)
    (u v : Status) (o p : OverrideSddsHeader)
    → ((same_network n m ≡ true) ↔ (n ≡ m))
      × ((same_sdds s t ≡ true) ↔ (s ≡ t))
      × ((same_attach a b ≡ true) ↔ (a ≡ b))
      × ((same_status u v ≡ true) ↔ (u ≡ v))
      × ((same_override F o p ≡ true) ↔ (
          (p ≡ record o { frequency = p.frequency; dfdt = p.dfdt })
          × (F.eq o.frequency p.frequency ≡ true)
          × (F.eq o.dfdt p.dfdt ≡ true)))
unfolding same_network same_sdds same_attach same_status same_override
same_settings_iff F n m s t a b u v o p = (
  ground (arith, same_text_iff n.interface m.interface, same_text_iff n.ip_address m.ip_address),
  ground arith,
  ground (
    arith,
    same_flag_iff a.time_tag_valid b.time_tag_valid,
    eq_iff a.user_id b.user_id,
    same_flag_iff a.downstream_give_sri_priority b.downstream_give_sri_priority,
  ),
  ground
      (arith, eq_iff u.current_stream v.current_stream, eq_iff u.stream_on_deck v.stream_on_deck),
  ground (arith, same_flag_iff o.enabled p.enabled),
)

-- ===== src/Settings/Conversion/RoundTrip.antt =====
-- What `>>=` reads of an Any that `<<=` has filled.
use text.Mathlib.Text.{◌==◌ as str_eq}
use sink_sdds.Base.{ℕ, String, ◌≡◌, refl, ◌∙◌, Bool, true, some, if◌then◌else◌, Text}
use sink_sdds.Settings.{NetworkSettings, SddsSettings, AttachSettings, OverrideSddsHeader, Status}
use sink_sdds.Settings.Conversion.{
  Codec, PropertyMaps, member, extract_network, insert_network, extract_sdds, insert_sdds,
  extract_attach, insert_attach, extract_override, insert_override, extract_status, insert_status,
}

-- What the framework documents: an Any gives back what it was filled with, and a map what was put.
pub record IsLawful (M : PropertyMaps) : Type 0 where
  pub contains-put :
      (id j : String) (a : M.Any) (m : M.Map)
      → M.contains j (M.put id a m) ≡ (if str_eq id j then true else M.contains j m)
  pub get-put :
      (id j : String) (a : M.Any) (m : M.Map)
      → M.get j (M.put id a m) ≡ (if str_eq id j then a else M.get j m)
  pub map_back : (m : M.Map) → M.map.extract (M.map.inject m) ≡ some m
  pub text_back : (v : Text) → M.text.extract (M.text.inject v) ≡ some v
  pub string_back : (v : String) → M.string.extract (M.string.inject v) ≡ some v
  pub flag_back : (v : Bool) → M.flag.extract (M.flag.inject v) ≡ some v
  pub short_back : (v : ℕ) → M.short.extract (M.short.inject v) ≡ some v
  pub ushort_back : (v : ℕ) → M.ushort.extract (M.ushort.inject v) ≡ some v
  pub long_back : (v : ℕ) → M.long.extract (M.long.inject v) ≡ some v
  pub double_back : (v : ℕ) → M.double.extract (M.double.inject v) ≡ some v

module _ (M : PropertyMaps) (lawful : IsLawful M) where
  open lawful use {
    contains-put, get-put, map_back, text_back, string_back, flag_back, short_back, ushort_back,
    long_back, double_back,
  }

  -- The map holds this value under the id.
  abbrev Has : String → M.Any → M.Map → Type 0
  Has id a m = (M.contains id m ≡ true) × (M.get id m ≡ a)

  record HasOverride (o : OverrideSddsHeader) (m : M.Map) : Type 0 where
    enabled : Has "override_sdds_header::enabled" (M.flag.inject o.enabled) m
    dmode : Has "override_sdds_header::dmode" (M.ushort.inject o.dmode) m
    bps : Has "override_sdds_header::bps" (M.ushort.inject o.bps) m
    cx : Has "override_sdds_header::cx" (M.ushort.inject o.cx) m
    msv : Has "override_sdds_header::msv" (M.ushort.inject o.msv) m
    ttv : Has "override_sdds_header::ttv" (M.ushort.inject o.ttv) m
    sscv : Has "override_sdds_header::sscv" (M.ushort.inject o.sscv) m
    msptr : Has "override_sdds_header::msptr" (M.ushort.inject o.msptr) m
    msdel : Has "override_sdds_header::msdel" (M.ushort.inject o.msdel) m
    frequency : Has "override_sdds_header::frequency" (M.double.inject o.frequency) m
    dfdt : Has "override_sdds_header::dfdt" (M.double.inject o.dfdt) m

  member-found :
      {A S : Type 0} (c : Codec M.Any A) (id : String) (set : A → S → S) (m : M.Map)
      (next : S → S × Bool) (s : S) (v : A)
      → Has id (c.inject v) m
      → c.extract (c.inject v) ≡ some v
      → member M c id set m next s ≡ next (set v s)
  unfolding member
  member-found c id set m next s v (here, value) back = rw (here, value, back) refl

  extract_override-map :
      (o o' : OverrideSddsHeader) (m : M.Map)
      → HasOverride o m
      → extract_override M (M.map.inject m) o' ≡ (o, true)
  unfolding extract_override
  extract_override-map o o' m h = rw (map_back m) (
      member-found M.flag _ _ m _ _ o.enabled h.enabled (flag_back o.enabled)
      ∙ (member-found M.ushort _ _ m _ _ o.dmode h.dmode (ushort_back o.dmode)
          ∙ (member-found M.ushort _ _ m _ _ o.bps h.bps (ushort_back o.bps)
              ∙ (member-found M.ushort _ _ m _ _ o.cx h.cx (ushort_back o.cx)
                  ∙ (member-found M.ushort _ _ m _ _ o.msv h.msv (ushort_back o.msv)
                      ∙ (member-found M.ushort _ _ m _ _ o.ttv h.ttv (ushort_back o.ttv)
                          ∙ (member-found M.ushort _ _ m _ _ o.sscv h.sscv (ushort_back o.sscv)
                              ∙ (member-found M.ushort _ _ m _ _ o.msptr h.msptr
                                    (ushort_back o.msptr)
                                  ∙ (member-found M.ushort _ _ m _ _ o.msdel h.msdel
                                        (ushort_back o.msdel)
                                      ∙ (member-found M.double _ _ m _ _ o.frequency h.frequency
                                            (double_back o.frequency)
                                          ∙ (member-found M.double _ _ m _ _ o.dfdt h.dfdt
                                              (double_back o.dfdt))))))))))))

  put-HasOverride :
      (o : OverrideSddsHeader)
      → (m : M.Map) × (insert_override M o ≡ M.map.inject m) × HasOverride o m
  unfolding insert_override
  put-HasOverride o = (
    _,
    refl,
    record {
      enabled = (simp contains-put, simp get-put);
      dmode = (simp contains-put, simp get-put);
      bps = (simp contains-put, simp get-put);
      cx = (simp contains-put, simp get-put);
      msv = (simp contains-put, simp get-put);
      ttv = (simp contains-put, simp get-put);
      sscv = (simp contains-put, simp get-put);
      msptr = (simp contains-put, simp get-put);
      msdel = (simp contains-put, simp get-put);
      frequency = (simp contains-put, simp get-put);
      dfdt = (simp contains-put, simp get-put);
    },
  )

  -- An Any that `<<=` has filled from a structure is read back by `>>=` into any structure of the kind,
  -- which then equals the first, and the operator returns true: for each of the five structures.
  pub extract-insert :
      (n n' : NetworkSettings) (s s' : SddsSettings) (a a' : AttachSettings)
      (o o' : OverrideSddsHeader) (u u' : Status)
      → (extract_network M (insert_network M n) n' ≡ (n, true))
        × (extract_sdds M (insert_sdds M s) s' ≡ (s, true))
        × (extract_attach M (insert_attach M a) a' ≡ (a, true))
        × (extract_override M (insert_override M o) o' ≡ (o, true))
        × (extract_status M (insert_status M u) u' ≡ (u, true))
  unfolding member extract_network insert_network extract_sdds insert_sdds extract_attach
      insert_attach extract_status insert_status
  extract-insert n n' s s' a a' o o' u u' = (
    simp (contains-put, get-put, map_back, text_back, ushort_back, long_back),
    simp (contains-put, get-put, map_back, short_back, long_back),
    simp (contains-put, get-put, map_back, flag_back, string_back),
    (let (m, filled, has) = put-HasOverride o in rw filled (extract_override-map o o' m has)),
    simp (contains-put, get-put, map_back, string_back),
  )

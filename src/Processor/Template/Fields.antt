-- ===== src/Processor/Template/Fields.antt =====
-- The header fields that the constructor, the SRI and the user's override set.
use sink_sdds.Base.{
  ℕ, zero, suc, ◌%◌, ◌^◌, ◌<◌, ◌≡◌, refl, ap, ◌∙◌, true, not, List, [], ◌∷◌, arith, if◌then◌else◌,
  ◌==◌, length, drop,
}
use sink_sdds.Float.{FloatOps}
use sink_sdds.Settings.{OverrideSddsHeader}
use sink_sdds.Packet.Bytes.{htons, htonl, swap8}
use sink_sdds.Packet.Header.{
  Header, set_sscv, set_dfdt, set_freq, set_msdel, set_msptr, set_msv, set_ttv,
}
use sink_sdds.Packet.Flags.{view, Pointer, setters_view, setters_fit}
use sink_sdds.Processor.Types.{Native, octet, short, float, sizeof}
use sink_sdds.Processor.Template.{
  zero_ssd, zero_aad, default_dmode, initialize_sdds_header, override_sdds_header,
}

zero_aad-cons : (n : ℕ) (aad : List ℕ) → zero_aad n (0 ∷ aad) ≡ 0 ∷ aad
unfolding zero_aad
zero_aad-cons zero aad = refl
zero_aad-cons (suc n) aad = zero_aad-cons n aad

-- However often the loop runs, only the first byte is set.
zero_aad-drop : (n : ℕ) (aad : List ℕ) → 0 < length aad → zero_aad (suc n) aad ≡ 0 ∷ drop 1 aad
unfolding zero_aad
zero_aad-drop n [] h = absurd (omega arith)
zero_aad-drop n (x ∷ xs) h = zero_aad-cons n xs

zero_ssd-two : (ssd : List ℕ) → length ssd ≡ 2 → zero_ssd 2 0 ssd ≡ 0 ∷ 0 ∷ []
unfolding zero_ssd
zero_ssd-two [] h = absurd (omega arith)
zero_ssd-two (x ∷ []) h = absurd (omega arith)
zero_ssd-two (x ∷ y ∷ []) h = refl
zero_ssd-two (x ∷ y ∷ z ∷ r) h = absurd (omega arith)

default_dmode-sizeof : (n : Native) → default_dmode n ≡ (if sizeof n == 4 then 0 else sizeof n)
unfolding default_dmode
default_dmode-sizeof octet = refl
default_dmode-sizeof short = refl
default_dmode-sizeof float = refl

-- What `initializeSDDSHeader` makes of a header with two `ssd` words and some `aad` bytes, whose
-- `msptr` is a 16-bit word: in `msptr` the clock is marked valid and all else is as it was; and of
-- the other fields, the data mode is 1, 2 or 0 for octets, shorts or floats, the parity bit and the
-- `ssd` words are 0, `dfdt` is that of the rate 0, the first `aad` byte is 0, and the other `aad`
-- bytes, `msdel` and every other field are what the memory held.
pub initialize_sdds_header_lem :
    (F : FloatOps) (native : Native) (h : Header)
    → h.msptr < 2 ^ 16
    → length h.ssd ≡ 2
    → 0 < length h.aad
    → let k = initialize_sdds_header F native h in
      (view k ≡ record (view h) { sscv = true })
      × (record k { msptr = h.msptr } ≡ record h {
        dmode = if sizeof native == 4 then 0 else sizeof native;
        pp = 0;
        dfdt = htonl (F.to_i32 (F.mul (F.lit 1073741824 0) (F.lit 0 0)));
        ssd = 0 ∷ 0 ∷ [];
        aad = 0 ∷ drop 1 h.aad;
      })
unfolding initialize_sdds_header set_dfdt set_sscv
initialize_sdds_header_lem F native h fits two some_aad = (
  (setters_view (record h { pp = 0 }) fits 1).2,
  rw (default_dmode-sizeof native, zero_ssd-two h.ssd two, zero_aad-drop 19 h.aad some_aad) refl,
)

-- Flags and pointer after the five setters that the override calls.
module _ (o : OverrideSddsHeader) (h : Header) (fits : h.msptr < 2 ^ 16) where
  pointed : Header
  pointed = set_msptr o.msptr h

  marked : Header
  unfolding pointed
  marked = set_msv o.msv pointed

  clocked : Header
  unfolding marked
  clocked = set_sscv o.sscv marked

  tagged : Header
  unfolding clocked
  tagged = set_ttv o.ttv clocked

  view-tagged : view tagged ≡ record {
    msv = not (o.msv == 0);
    ttv = not (o.ttv == 0);
    sscv = not (o.sscv == 0);
    spare = 0;
    pointer = o.msptr % 2048;
  }
  unfolding tagged
  view-tagged =
      let fits1 = (setters_fit h fits o.msptr).3 in
      let fits2 = (setters_fit pointed fits1 o.msv).0 in
      let fits3 = (setters_fit marked fits2 o.sscv).2 in
      (setters_view clocked fits3 o.ttv).1
      ∙ (ap (λ (v : Pointer). record v { ttv = not (o.ttv == 0) })
          ((setters_view marked fits2 o.sscv).2
            ∙ ap (λ (v : Pointer). record v { sscv = not (o.sscv == 0) })
                ((setters_view pointed fits1 o.msv).0
                  ∙ ap (λ (v : Pointer). record v { msv = not (o.msv == 0) })
                      ((setters_view h fits o.msptr).3))))

  tagged_rest : record tagged { msptr = h.msptr } ≡ h
  unfolding tagged set_ttv set_sscv set_msv set_msptr
  tagged_rest = ground arith

-- With the override enabled, what a header whose `msptr` is a 16-bit word becomes: in `msptr`, each
-- flag is set exactly when its property is not 0, and the pointer is the property cut to 11 bits;
-- and of the other fields, the data mode, bits per sample and complex flag are the properties cut
-- to 3, 5 and 1 bits, `msdel` is the property in network order, `freq` is the property's multiple of
-- 125 MHz / 2^63 as a 64-bit integer in network order, `dfdt` is the property times 2^30 as a 32-bit
-- integer in network order, and every other field is as it was.
pub override_sdds_header_lem :
    (F : FloatOps) (o : OverrideSddsHeader) (h : Header)
    → h.msptr < 2 ^ 16
    → o.enabled ≡ true
    → let k = override_sdds_header F o h in
      (view k ≡ record {
        msv = not (o.msv == 0);
        ttv = not (o.ttv == 0);
        sscv = not (o.sscv == 0);
        spare = 0;
        pointer = o.msptr % 2048;
      })
      × (record k { msptr = h.msptr } ≡ record h {
        dmode = o.dmode % 8;
        bps = o.bps % 32;
        cx = o.cx % 2;
        msdel = htons o.msdel;
        freq = swap8 (F.to_u64 (F.mul o.frequency (F.lit 73786976294838211 6)));
        dfdt = htonl (F.to_i32 (F.mul (F.lit 1073741824 0) o.dfdt));
      })
unfolding override_sdds_header set_msdel set_freq set_dfdt tagged
override_sdds_header_lem F o h fits e = rw e (view-tagged o framed fits, tagged_rest o framed fits)
  where
    framed : Header
    framed =
        let fields = set_dfdt F o.dfdt (record h { bps = o.bps % 32; cx = o.cx % 2 }) in
        set_msdel o.msdel (set_freq F o.frequency (record fields { dmode = o.dmode % 8 }))

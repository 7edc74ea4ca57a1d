-- ===== src/Packet/Layout.antt =====
-- The widths of the fields of SDDSpacket in cpp/sddspacket.h, which every setter keeps.
use sink_sdds.Base.{ℕ, ◌^◌, ◌<◌, ◌≡◌, length, arith, AllBelow}
use sink_sdds.Float.{Double, FloatOps}
use sink_sdds.Packet.Bytes.{htons-lt, htonl-lt, swap8-lt}
use sink_sdds.Packet.Time.{SddsTime}
use sink_sdds.Packet.Flags.{setters_fit}
use sink_sdds.Packet.Header.{
  Header, set_seq, set_msptr, set_msdel, set_msv, set_ttv, set_sscv, set_sdds_time, set_freq,
  set_dfdt,
}

-- The bit-fields have their widths.
abbrev pub BitsFit : Header → Type 0
BitsFit h =
    (h.dmode < 8)
    × (h.ss < 2)
    × (h.of < 2)
    × (h.pp < 2)
    × (h.sos < 2)
    × (h.sf < 2)
    × (h.bps < 32)
    × (h.unused < 4)
    × (h.cx < 2)

-- The words have theirs.
abbrev pub WordsFit : Header → Type 0
WordsFit h =
    (h.seq < 2 ^ 16)
    × (h.msptr < 2 ^ 16)
    × (h.msdel < 2 ^ 16)
    × (h.ttag < 2 ^ 64)
    × (h.ttage < 2 ^ 32)
    × (h.dfdt < 2 ^ 32)
    × (h.freq < 2 ^ 64)

-- The arrays have their lengths, and the widths of their elements.
abbrev pub ArraysFit : Header → Type 0
ArraysFit h =
    (length h.ssd ≡ 2) × AllBelow (2 ^ 16) h.ssd × (length h.aad ≡ 20) × AllBelow 256 h.aad

abbrev pub FitsLayout : Header → Type 0
FitsLayout h = BitsFit h × WordsFit h × ArraysFit h

module _ (h : Header) (fits : FitsLayout h) where
  pub set_seq-FitsLayout : (n : ℕ) → FitsLayout (set_seq n h)
  unfolding set_seq
  set_seq-FitsLayout n = ground (arith, htons-lt n)

  pub set_msdel-FitsLayout : (n : ℕ) → FitsLayout (set_msdel n h)
  unfolding set_msdel
  set_msdel-FitsLayout n = ground (arith, htons-lt n)

  pub set_sdds_time-FitsLayout : (t : SddsTime) → FitsLayout (set_sdds_time t h)
  unfolding set_sdds_time
  set_sdds_time-FitsLayout t = ground (arith, swap8-lt t.ps250, htonl-lt t.pf250)

  pub set_freq-FitsLayout : (F : FloatOps) (x : Double) → FitsLayout (set_freq F x h)
  unfolding set_freq
  set_freq-FitsLayout F x =
      ground (arith, swap8-lt (F.to_u64 (F.mul x (F.lit 73786976294838211 6))))

  pub set_dfdt-FitsLayout : (F : FloatOps) (x : Double) → FitsLayout (set_dfdt F x h)
  unfolding set_dfdt
  set_dfdt-FitsLayout F x = ground (arith, htonl-lt (F.to_i32 (F.mul (F.lit 1073741824 0) x)))

  pub set_msv-FitsLayout : (n : ℕ) → FitsLayout (set_msv n h)
  unfolding set_msv
  set_msv-FitsLayout n = ground (arith, setters_fit h fits.1.1 n)

  pub set_ttv-FitsLayout : (n : ℕ) → FitsLayout (set_ttv n h)
  unfolding set_ttv
  set_ttv-FitsLayout n = ground (arith, setters_fit h fits.1.1 n)

  pub set_sscv-FitsLayout : (n : ℕ) → FitsLayout (set_sscv n h)
  unfolding set_sscv
  set_sscv-FitsLayout n = ground (arith, setters_fit h fits.1.1 n)

  pub set_msptr-FitsLayout : (n : ℕ) → FitsLayout (set_msptr n h)
  unfolding set_msptr
  set_msptr-FitsLayout n = ground (arith, setters_fit h fits.1.1 n)

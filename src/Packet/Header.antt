-- ===== src/Packet/Header.antt =====
-- The header fields of the class SDDSpacket of cpp/sddspacket.h, as they lie in memory on a
-- little-endian host, with the setters and getters. A bit-field keeps the low bits of what is
-- assigned to it; `uint16_t` and wider fields hold network byte order.
use sink_sdds.Base.{ℕ, ◌%◌, ◌^◌, List, bit_and, bit_or, if◌then◌else◌, ◌==◌}
use sink_sdds.Float.{Double, FloatOps}
use sink_sdds.Packet.Bytes.{swap8, htons, htonl}
use sink_sdds.Packet.Time.{SddsTime}

pub record Header : Type 0 where
  pub dmode : ℕ
  pub ss : ℕ
  pub of : ℕ
  pub pp : ℕ
  pub sos : ℕ
  pub sf : ℕ
  pub bps : ℕ
  pub unused : ℕ
  pub cx : ℕ
  pub seq : ℕ
  pub msptr : ℕ
  pub msdel : ℕ
  pub ttag : ℕ
  pub ttage : ℕ
  pub dfdt : ℕ
  pub freq : ℕ
  pub ssd : List ℕ
  pub aad : List ℕ

unfoldable pub get_seq : Header → ℕ
get_seq h = htons h.seq

unfoldable pub set_seq : ℕ → Header → Header
set_seq val h = record h { seq = htons val }

unfoldable pub get_msptr : Header → ℕ
get_msptr h = bit_and (htons h.msptr) 0x07FF

unfoldable pub set_msptr : ℕ → Header → Header
set_msptr val h = record h {
  msptr = bit_or (htons (bit_and val 0x07FF)) (bit_and h.msptr 0x00E0) % 2 ^ 16;
}

unfoldable pub clear_msptr : Header → Header
clear_msptr h = record h { msptr = bit_and h.msptr 0x00E0; msdel = 0 }

unfoldable pub get_msdel : Header → ℕ
get_msdel h = htons h.msdel

unfoldable pub set_msdel : ℕ → Header → Header
set_msdel val h = record h { msdel = htons val }

unfoldable pub get_msv : Header → ℕ
get_msv h = bit_and h.msptr 0x0080

unfoldable pub get_ttv : Header → ℕ
get_ttv h = bit_and h.msptr 0x0040

unfoldable pub get_sscv : Header → ℕ
get_sscv h = bit_and h.msptr 0x0020

unfoldable pub set_msv : ℕ → Header → Header
set_msv flag h =
    if flag == 0
    then record h { msptr = bit_and h.msptr 0xFF7F }
    else record h { msptr = bit_or h.msptr 0x0080 }

unfoldable pub set_ttv : ℕ → Header → Header
set_ttv flag h =
    if flag == 0
    then record h { msptr = bit_and h.msptr 0xFFBF }
    else record h { msptr = bit_or h.msptr 0x0040 }

unfoldable pub set_sscv : ℕ → Header → Header
set_sscv flag h =
    if flag == 0
    then record h { msptr = bit_and h.msptr 0xFFDF }
    else record h { msptr = bit_or h.msptr 0x0020 }

unfoldable pub get_ttag : Header → ℕ
get_ttag h = swap8 h.ttag

unfoldable pub set_ttag : ℕ → Header → Header
set_ttag val h = record h { ttag = swap8 val }

unfoldable pub get_sdds_time : Header → SddsTime
get_sdds_time h = record { ps250 = swap8 h.ttag; pf250 = htonl h.ttage }

unfoldable pub set_sdds_time : SddsTime → Header → Header
set_sdds_time t h = record h { ttag = swap8 t.ps250; ttage = htonl t.pf250 }

module _ (F : FloatOps) where
  open F use {lit, mul, of_u64, to_u64, to_i32}

  unfoldable pub get_freq : Header → Double
  get_freq h = mul (of_u64 (swap8 h.freq)) (lit 13552527156068805 27)

  unfoldable pub set_freq : Double → Header → Header
  set_freq val h = record h { freq = swap8 (to_u64 (mul val (lit 73786976294838211 6))) }

  -- `ntohl` returns a `uint32_t`, which is converted as such.
  unfoldable pub get_dfdt : Header → Double
  get_dfdt h = mul (of_u64 (htonl h.dfdt)) (lit 93132257461547852 26)

  unfoldable pub set_dfdt : Double → Header → Header
  set_dfdt val h = record h { dfdt = htonl (to_i32 (mul (lit 1073741824 0) val)) }

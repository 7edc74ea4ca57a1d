-- ===== src/Processor/Template.antt =====
-- What the processor writes into its SDDS header template: `initializeSDDSHeader`,
-- `overrideSddsHeader`, `setSddsHeaderFromSri`, `setSddsTimestamp` and `getStartOfYear` of
-- cpp/BulkIOToSDDSProcessor.cpp, and the template's part of `setSddsSettings` and `setStream`.
pub mod Fields
pub mod Layout
use sink_sdds.Base.{ℕ, zero, suc, ◌+◌, ◌-◌, ◌*◌, ◌%◌, ◌^◌, List, [], ◌∷◌, if◌then◌else◌, ◌==◌}
use sink_sdds.Float.{Double, FloatOps}
use sink_sdds.Settings.{OverrideSddsHeader}
use sink_sdds.Packet.Header.{
  Header, set_sscv, set_dfdt, set_freq, set_msdel, set_msptr, set_msv, set_ttv, set_sdds_time,
}
use sink_sdds.Packet.Time.{of_parts}
use sink_sdds.Processor.Types.{Native, octet, short, float, sizeof, Sri, Env, Call, Processor}

-- `array[i] = 0` on an array of C.
unfoldable pub zero_at : ℕ → List ℕ → List ℕ
zero_at i [] = []
zero_at zero (x ∷ xs) = 0 ∷ xs
zero_at (suc i) (x ∷ xs) = x ∷ zero_at i xs

-- `for (i = 0; i < SSD_LENGTH; ++i) ssd[i] = 0`, from index `i` with `left` rounds to go.
unfoldable pub zero_ssd : ℕ → ℕ → List ℕ → List ℕ
unfolding zero_at
zero_ssd zero i ssd = ssd
zero_ssd (suc left) i ssd = zero_ssd left (i + 1) (zero_at i ssd)

-- `for (i = 0; i < AAD_LENGTH; ++i) aad[0] = 0`: the index is 0 in every round.
unfoldable pub zero_aad : ℕ → List ℕ → List ℕ
unfolding zero_at
zero_aad zero aad = aad
zero_aad (suc left) aad = zero_aad left (zero_at 0 aad)

abbrev pub ssd_length : ℕ
ssd_length = 2

abbrev pub aad_length : ℕ
aad_length = 20

unfoldable pub default_dmode : Native → ℕ
default_dmode octet = 1
default_dmode short = 2
default_dmode float = 0

unfoldable pub initialize_sdds_header : FloatOps → Native → Header → Header
unfolding zero_ssd zero_aad default_dmode
initialize_sdds_header F native h =
    let timed = set_dfdt F (F.lit 0 0) (set_sscv 1 (record h { pp = 0 })) in
    record timed {
      dmode = default_dmode native;
      ssd = zero_ssd ssd_length 0 timed.ssd;
      aad = zero_aad aad_length timed.aad;
    }

-- The part of `setStream` that writes the template: bits per sample, 31 for a float.
unfoldable pub default_bps : Native → ℕ
default_bps native = if sizeof native == sizeof float then 31 else 8 * sizeof native

-- The values of `override`, each cut to its field.
unfoldable pub override_sdds_header : FloatOps → OverrideSddsHeader → Header → Header
override_sdds_header F o h =
    if o.enabled
    then (let fields = set_dfdt F o.dfdt (record h { bps = o.bps % 32; cx = o.cx % 2 }) in
        let framed = set_freq F o.frequency (record fields { dmode = o.dmode % 8 }) in
        set_ttv o.ttv
          (set_sscv o.sscv (set_msv o.msv (set_msptr o.msptr (set_msdel o.msdel framed)))))
    else h

-- The frequency of the digitizer clock, twice the sample frequency if complex.
unfoldable pub clock_frequency : FloatOps → Sri → Double
clock_frequency F sri =
    if sri.mode == 1 then F.div (F.lit 2 0) sri.xdelta else F.div (F.lit 1 0) sri.xdelta

unfoldable pub set_sdds_header_from_sri : FloatOps → Processor → Processor
set_sdds_header_from_sri F p =
    let derived =
      (if p.override.enabled
        then p.template
        else set_freq F (clock_frequency F p.sri) (record p.template { cx = p.sri.mode % 2 })) in
    record p { template = (if p.first_run then record derived { sos = 1 } else derived) }

-- Seconds from 1970 to the first of January of the current year.
unfoldable pub get_start_of_year : Env → List Call → ℕ
get_start_of_year E calls =
    let now = E.gmtime (E.time calls) in
    let new_year = record now { sec = 0; min = 0; hour = 0; mday = 1; mon = 0 } in
    (E.mktime new_year + 2 ^ 64 - E.timezone) % 2 ^ 64

unfoldable pub set_sdds_timestamp : Env → Processor → Processor
set_sdds_timestamp E p =
    let F = E.floats in
    let seconds = F.sub p.current_time.twsec (F.of_i64 (get_start_of_year E p.calls)) in
    let timed = set_sdds_time (of_parts F seconds p.current_time.tfsec) p.template in
    record p {
      template =
          (if p.override.enabled
            then timed
            else set_ttv (if p.current_time.tcstatus == E.tcs_valid then 1 else 0) timed);
    }

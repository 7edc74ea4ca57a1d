-- ===== src/Processor/Template/Layout.antt =====
-- What cpp/BulkIOToSDDSProcessor.cpp writes into its header template has the widths of the fields.
use sink_sdds.Base.{
  ℕ, zero, suc, ◌+◌, ◌%◌, ◌^◌, ◌<◌, ◌≡◌, refl, List, [], ◌∷◌, length, AllBelow, if◌then◌else◌, ◌==◌,
  if_both, arith,
}
use sink_sdds.Float.{Double, FloatOps}
use sink_sdds.Settings.{OverrideSddsHeader}
use sink_sdds.Packet.Header.{
  Header, set_seq, set_sscv, set_dfdt, set_freq, set_msptr, set_msv, set_ttv, set_sdds_time,
}
use sink_sdds.Packet.Time.{of_parts}
use sink_sdds.Packet.Layout.{
  FitsLayout, set_seq-FitsLayout, set_msdel-FitsLayout, set_sdds_time-FitsLayout,
  set_freq-FitsLayout, set_dfdt-FitsLayout, set_msv-FitsLayout, set_ttv-FitsLayout,
  set_sscv-FitsLayout, set_msptr-FitsLayout,
}
use sink_sdds.Processor.Types.{Native, octet, short, float, Env, Processor}
use sink_sdds.Processor.Template.{
  zero_at, zero_ssd, zero_aad, ssd_length, aad_length, default_dmode, initialize_sdds_header,
  default_bps, override_sdds_header, clock_frequency, set_sdds_header_from_sri, get_start_of_year,
  set_sdds_timestamp,
}
use sink_sdds.Processor.Send.{reset_sos, prepare, next_seq}

zero_at-AllBelow :
    (bound i : ℕ) (xs : List ℕ)
    → 0 < bound
    → AllBelow bound xs
    → AllBelow bound (zero_at i xs) × (length (zero_at i xs) ≡ length xs)
unfolding zero_at
zero_at-AllBelow bound i [] pos h = (tt, refl)
zero_at-AllBelow bound zero (x ∷ xs) pos h = ((pos, h.1), refl)
zero_at-AllBelow bound (suc i) (x ∷ xs) pos h =
    let rest = zero_at-AllBelow bound i xs pos h.1 in ((h.0, rest.0), omega (arith, rest.1))

zero_ssd-AllBelow :
    (left i : ℕ) (ssd : List ℕ)
    → AllBelow (2 ^ 16) ssd
    → AllBelow (2 ^ 16) (zero_ssd left i ssd) × (length (zero_ssd left i ssd) ≡ length ssd)
unfolding zero_ssd
zero_ssd-AllBelow zero i ssd h = (h, refl)
zero_ssd-AllBelow (suc left) i ssd h =
    let once = zero_at-AllBelow (2 ^ 16) i ssd (omega arith) h in
    let rest = zero_ssd-AllBelow left (i + 1) (zero_at i ssd) once.0 in
    (rest.0, omega (arith, once.1, rest.1))

zero_aad-AllBelow :
    (left : ℕ) (aad : List ℕ)
    → AllBelow 256 aad
    → AllBelow 256 (zero_aad left aad) × (length (zero_aad left aad) ≡ length aad)
unfolding zero_aad
zero_aad-AllBelow zero aad h = (h, refl)
zero_aad-AllBelow (suc left) aad h =
    let once = zero_at-AllBelow 256 0 aad (omega arith) h in
    let rest = zero_aad-AllBelow left (zero_at 0 aad) once.0 in
    (rest.0, omega (arith, once.1, rest.1))

pub default_bps-lt : (n : Native) → default_bps n < 32
unfolding default_bps
default_bps-lt octet = omega arith
default_bps-lt short = omega arith
default_bps-lt float = omega arith

default_dmode-lt : (n : Native) → default_dmode n < 8
unfolding default_dmode
default_dmode-lt octet = omega arith
default_dmode-lt short = omega arith
default_dmode-lt float = omega arith

module _ (h : Header) (fits : FitsLayout h) where
  pub initialize_sdds_header-FitsLayout :
      (F : FloatOps) (n : Native) → FitsLayout (initialize_sdds_header F n h)
  unfolding initialize_sdds_header
  initialize_sdds_header-FitsLayout F n =
      let cleared : Header = record h { pp = 0 } in
      let flagged = set_sscv-FitsLayout cleared (ground arith) 1 in
      let timed = set_dfdt-FitsLayout (set_sscv 1 cleared) flagged F (F.lit 0 0) in
      let arrays = timed.2 in
      ground (
        arith,
        timed,
        default_dmode-lt n,
        zero_ssd-AllBelow ssd_length 0 _ arrays.1,
        zero_aad-AllBelow aad_length _ arrays.3,
      )

  pointer_setters-FitsLayout :
      (msptr msv sscv ttv : ℕ)
      → FitsLayout (set_ttv ttv (set_sscv sscv (set_msv msv (set_msptr msptr h))))
  pointer_setters-FitsLayout msptr msv sscv ttv =
      let a : Header = set_msptr msptr h in
      let b : Header = set_msv msv a in
      let c : Header = set_sscv sscv b in
      let va : FitsLayout a = set_msptr-FitsLayout h fits msptr in
      let vb : FitsLayout b = set_msv-FitsLayout a va msv in
      let vc : FitsLayout c = set_sscv-FitsLayout b vb sscv in set_ttv-FitsLayout c vc ttv

  frame-FitsLayout :
      (F : FloatOps) (bps cx dmode : ℕ) (dfdt frequency : Double)
      → FitsLayout (
          set_freq F frequency
            (record (set_dfdt F dfdt (record h { bps = bps % 32; cx = cx % 2 })) {
              dmode = dmode % 8;
            }))
  frame-FitsLayout F bps cx dmode dfdt frequency =
      let a : Header = record h { bps = bps % 32; cx = cx % 2 } in
      let b : Header = set_dfdt F dfdt a in
      let vb : FitsLayout b = set_dfdt-FitsLayout a (ground arith) F dfdt in
      set_freq-FitsLayout (record b { dmode = dmode % 8 }) (ground (arith, vb)) F frequency

pub override_sdds_header-FitsLayout :
    (F : FloatOps) (o : OverrideSddsHeader) (h : Header)
    → FitsLayout h
    → FitsLayout (override_sdds_header F o h)
unfolding override_sdds_header
override_sdds_header-FitsLayout F o h fits =
    if_both FitsLayout o.enabled _ h
      (pointer_setters-FitsLayout _
        (set_msdel-FitsLayout _ (frame-FitsLayout h fits F o.bps o.cx o.dmode o.dfdt o.frequency)
          o.msdel)
        o.msptr o.msv o.sscv o.ttv)
      fits

module _ (p : Processor) (fits : FitsLayout p.template) where
  pub set_sdds_header_from_sri-FitsLayout :
      (F : FloatOps) → FitsLayout (set_sdds_header_from_sri F p).template
  unfolding set_sdds_header_from_sri
  set_sdds_header_from_sri-FitsLayout F =
      let framed : Header = record (p.template) { cx = p.sri.mode % 2 } in
      let derived : Header =
        (if p.override.enabled then p.template else set_freq F (clock_frequency F p.sri) framed) in
      let v : FitsLayout derived =
        if_both FitsLayout p.override.enabled p.template _ fits
          (set_freq-FitsLayout framed (ground arith) F (clock_frequency F p.sri)) in
      if_both FitsLayout p.first_run (record derived { sos = 1 }) derived (ground (arith, v)) v

  pub set_sdds_timestamp-FitsLayout : (E : Env) → FitsLayout (set_sdds_timestamp E p).template
  unfolding set_sdds_timestamp
  set_sdds_timestamp-FitsLayout E =
      let F = E.floats in
      let seconds = F.sub p.current_time.twsec (F.of_i64 (get_start_of_year E p.calls)) in
      let t = of_parts F seconds p.current_time.tfsec in
      let v = set_sdds_time-FitsLayout p.template fits t in
      if_both FitsLayout p.override.enabled (set_sdds_time t p.template) _ v
        (set_ttv-FitsLayout _ v (if p.current_time.tcstatus == E.tcs_valid then 1 else 0))

  reset_sos-FitsLayout : FitsLayout (reset_sos p)
  unfolding reset_sos
  reset_sos-FitsLayout = ground arith

pub prepare-FitsLayout :
    (E : Env) (p : Processor) → FitsLayout p.template → FitsLayout (prepare E p).template
unfolding prepare
prepare-FitsLayout E p fits =
    set_sdds_timestamp-FitsLayout
      (record p { template = set_seq p.seq (reset_sos p); seq = next_seq p.seq })
      (set_seq-FitsLayout (reset_sos p) (reset_sos-FitsLayout p fits) p.seq) E

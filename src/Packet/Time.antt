-- ===== src/Packet/Time.antt =====
-- The class SDDSTime of cpp/sddspacket.h: ticks of 250 picoseconds in a `uint64_t`, and fractions
-- of a tick in a `uint32_t`.
use sink_sdds.Base.{
  ℕ, ◌+◌, ◌-◌, ◌*◌, ◌/◌, ◌%◌, ◌^◌, ◌<◌, ◌≡◌, ◌↔◌, Bool, true, ◌&&◌, arith, ltb, leb, ◌==◌,
  if◌then◌else◌,
}
use sink_sdds.Float.{Double, FloatOps}

pub record SddsTime : Type 0 where
  pub ps250 : ℕ
  pub pf250 : ℕ

abbrev pub IsSddsTime : SddsTime → Type 0
IsSddsTime t = (t.ps250 < 2 ^ 64) × (t.pf250 < 2 ^ 32)

unfoldable pub empty : SddsTime
empty = record { ps250 = 0; pf250 = 0 }

module _ (F : FloatOps) where
  open F use {lit, mul, floor, to_u64, to_u32, of_u64, add, sub}

  -- SDDSTime(double s)
  unfoldable pub of_seconds : Double → SddsTime
  of_seconds s =
      let pfrac = mul s (lit 4000000000 0) in
      record {
        ps250 = to_u64 (floor pfrac);
        pf250 = to_u32 (mul (sub pfrac (floor pfrac)) (lit 4294967296 0));
      }

  -- SDDSTime(double integral, double fractional)
  unfoldable pub of_parts : Double → Double → SddsTime
  of_parts integral fractional =
      let pfrac = mul fractional (lit 4000000000 0) in
      record {
        ps250 = (to_u64 integral * 4000000000 + to_u64 (floor pfrac)) % 2 ^ 64;
        pf250 = to_u32 (mul (sub pfrac (floor pfrac)) (lit 4294967296 0));
      }

-- `operator+=`, and `operator+` on a copy.
unfoldable pub add : SddsTime → SddsTime → SddsTime
add t other =
    let frac = t.pf250 + other.pf250 in
    record { ps250 = (t.ps250 + (other.ps250 + frac / 2 ^ 32)) % 2 ^ 64; pf250 = frac % 2 ^ 32 }

-- `operator-=`, and `operator-` on a copy. The unsigned subtractions wrap.
unfoldable pub sub : SddsTime → SddsTime → SddsTime
sub t other =
    if leb other.pf250 t.pf250
    then record {
      ps250 = (t.ps250 + 2 ^ 64 - other.ps250) % 2 ^ 64;
      pf250 = (t.pf250 + 2 ^ 32 - other.pf250) % 2 ^ 32;
    }
    else record {
      ps250 = (t.ps250 + 2 ^ 64 - (other.ps250 + 1) % 2 ^ 64) % 2 ^ 64;
      pf250 = (t.pf250 + 2 ^ 32 - other.pf250) % 2 ^ 32;
    }

-- `operator<`
unfoldable pub lt : SddsTime → SddsTime → Bool
lt t u = if t.ps250 == u.ps250 then ltb t.pf250 u.pf250 else ltb t.ps250 u.ps250

-- `operator==`
unfoldable pub eq : SddsTime → SddsTime → Bool
eq t u = t.ps250 == u.ps250 && t.pf250 == u.pf250

-- A time as one number of 2 ^ -32 ticks.
abbrev pub fractions : SddsTime → ℕ
fractions t = t.ps250 * 2 ^ 32 + t.pf250

module _ (t u : SddsTime) (ht : IsSddsTime t) (hu : IsSddsTime u) where
  -- For two times in range, `+` adds the numbers of fractions modulo 2 ^ 96, carry included, `-`
  -- subtracts them modulo 2 ^ 96, borrow included, and both results are in range.
  pub fractions-add-sub :
      (fractions (add t u) ≡ (fractions t + fractions u) % 2 ^ 96)
      × (fractions (sub t u) ≡ (fractions t + 2 ^ 96 - fractions u) % 2 ^ 96)
      × IsSddsTime (add t u)
      × IsSddsTime (sub t u)
  unfolding add sub
  fractions-add-sub = ground arith

  -- For two times in range, `-` takes back what `+` added, on both fields and across the wrap of
  -- either.
  sub-add : sub (add t u) u ≡ t
  unfolding add sub
  sub-add = ground arith

  -- For two times in range, `<` holds exactly when the number of fractions is smaller, and `==`
  -- exactly when the two times are the same.
  lt-eq_iff : ((lt t u ≡ true) ↔ (fractions t < fractions u)) × ((eq t u ≡ true) ↔ (t ≡ u))
  unfolding lt eq
  lt-eq_iff = (ground arith, ground arith)

-- ===== src/Float.antt =====
-- C++ `double` as its 64-bit pattern. The arithmetic is that of the platform: the operations that
-- the program applies are a parameter.
use sink_sdds.Base.{ℕ, Bool}

abbrev pub Double : Type 0
Double = ℕ

-- `lit m k` is the literal m / 10 ^ k. The conversions give bit patterns: `to_u64` is `uint64_t(x)`,
-- `to_i32` is `int32_t(x)`, `of_i64` takes the pattern of a signed 64-bit number.
pub record FloatOps : Type 0 where
  pub lit : ℕ → ℕ → Double
  pub mul : Double → Double → Double
  pub div : Double → Double → Double
  pub add : Double → Double → Double
  pub sub : Double → Double → Double
  pub floor : Double → Double
  pub ltb : Double → Double → Bool
  pub eq : Double → Double → Bool
  pub of_u64 : ℕ → Double
  pub of_i64 : ℕ → Double
  pub to_u64 : Double → ℕ
  pub to_u32 : Double → ℕ
  pub to_i32 : Double → ℕ

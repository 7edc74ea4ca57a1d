-- ===== src/Base/Bits.antt =====
-- The bit operations of C on unsigned words. `|` and `&` of two words go field by field, and a
-- table settles a claim about every byte.
use Prim.Native.Nat.{min, max, digits, bitwise, bit_and-bitwise, bit_or-bitwise}
use Prim.Native.Nat.{ℕ, zero, suc, ◌+◌, ◌-◌, ◌*◌, ◌/◌, ◌%◌, ◌^◌, ◌≤◌, ◌<◌, bit_and, bit_or}
use mathlib.Core.Path.{◌≡◌, refl, ap}
use mathlib.Core.Bool.{Bool, true, false}
use native.Mathlib.Nat.{le_refl, pow-suc, one-le-pow}
use native.Mathlib.Omega.{arith}
use sink_sdds.Base.Tests.{if◌then◌else◌}

-- The recursion on digits that the native operations stand for, without its fuel.
module _ (tail : ℕ → ℕ) (op : ℕ → ℕ → ℕ) where
  fuel_irrelevant : (n m a b : ℕ) → a ≤ n → a ≤ m → digits tail op n a b ≡ digits tail op m a b
  fuel_irrelevant zero zero a b p q = refl
  fuel_irrelevant zero (suc m) zero b p q = refl
  fuel_irrelevant zero (suc m) (suc a) b p q = absurd (omega arith)
  fuel_irrelevant (suc n) zero zero b p q = refl
  fuel_irrelevant (suc n) zero (suc a) b p q = absurd (omega arith)
  fuel_irrelevant (suc n) (suc m) zero b p q = refl
  fuel_irrelevant (suc n) (suc m) (suc a) b p q =
      rw (fuel_irrelevant n m (suc a / 2) (b / 2) (omega arith) (omega arith))

  low_digit :
      (a b : ℕ)
      → bitwise tail op (suc a) b ≡ bitwise tail op (suc a / 2) (b / 2) * 2 + op (suc a % 2) (b % 2)
  low_digit a b =
      omega (arith, fuel_irrelevant a (suc a / 2) (suc a / 2) (b / 2) (omega arith) (le_refl _))

bit_or_digit : (a b : ℕ) → bit_or a b ≡ bit_or (a / 2) (b / 2) * 2 + max (a % 2) (b % 2)
bit_or_digit zero b = simp bit_or-bitwise (omega arith)
bit_or_digit (suc a) b = simp bit_or-bitwise (low_digit (λ y. y) max a b)

bit_and_digit : (a b : ℕ) → bit_and a b ≡ bit_and (a / 2) (b / 2) * 2 + min (a % 2) (b % 2)
bit_and_digit zero b = simp bit_and-bitwise (omega arith)
bit_and_digit (suc a) b = simp bit_and-bitwise (low_digit (λ y. 0) min a b)

pub zero-bit_or : (b : ℕ) → bit_or 0 b ≡ b
zero-bit_or b = bit_or-bitwise 0 b

zero-bit_and : (b : ℕ) → bit_and 0 b ≡ 0
zero-bit_and b = bit_and-bitwise 0 b

double : (q k : ℕ) → q * 2 ^ suc k ≡ 2 * (q * 2 ^ k)
double q k = omega (arith, ap (λ (t : ℕ). q * t) (pow-suc 2 k))

-- Two words cut at the same bit are joined part by part.
pub bit_or_split :
    (k p q r s : ℕ)
    → r < 2 ^ k
    → s < 2 ^ k
    → bit_or (p * 2 ^ k + r) (q * 2 ^ k + s) ≡ bit_or p q * 2 ^ k + bit_or r s
bit_or_split zero p q r s fr fs = ground (arith, zero-bit_or 0)
bit_or_split (suc k) p q r s fr fs = ground (
  arith,
  bit_or_digit (p * 2 ^ suc k + r) (q * 2 ^ suc k + s),
  bit_or_digit r s,
  double p k,
  double q k,
  double (bit_or p q) k,
  pow-suc 2 k,
  bit_or_split k p q (r / 2) (s / 2),
)

pub bit_and_split :
    (k p q r s : ℕ)
    → r < 2 ^ k
    → s < 2 ^ k
    → bit_and (p * 2 ^ k + r) (q * 2 ^ k + s) ≡ bit_and p q * 2 ^ k + bit_and r s
bit_and_split zero p q r s fr fs = ground (arith, zero-bit_and 0)
bit_and_split (suc k) p q r s fr fs = ground (
  arith,
  bit_and_digit (p * 2 ^ suc k + r) (q * 2 ^ suc k + s),
  bit_and_digit r s,
  double p k,
  double q k,
  double (bit_and p q) k,
  pow-suc 2 k,
  bit_and_split k p q (r / 2) (s / 2),
)

-- By induction on a bound of the word.
zero_right : (bound : ℕ) (word : ℕ) → word < bound → (bit_or word 0 ≡ word) × (bit_and word 0 ≡ 0)
zero_right zero word below = absurd (omega arith)
zero_right (suc bound) zero below = (zero-bit_or 0, zero-bit_and 0)
zero_right (suc bound) (suc word) below =
    let half = zero_right bound (suc word / 2) (omega arith) in
    (
      omega (arith, half.0, bit_or_digit (suc word) 0),
      omega (arith, half.1, bit_and_digit (suc word) 0),
    )

pub bit_or-zero : (word : ℕ) → bit_or word 0 ≡ word
bit_or-zero word = (zero_right (suc word) word (omega arith)).0

pub bit_and-zero : (word : ℕ) → bit_and word 0 ≡ 0
bit_and-zero word = (zero_right (suc word) word (omega arith)).1

-- A field above another: `p << k | r`.
pub bit_or_above : (k p r : ℕ) → r < 2 ^ k → bit_or (p * 2 ^ k) r ≡ p * 2 ^ k + r
bit_or_above k p r h =
    ground (arith, one-le-pow k 2, bit_or_split k p 0 0 r, bit_or-zero p, zero-bit_or r)

bit_and_ones : (k r : ℕ) → r < 2 ^ k → bit_and r (2 ^ k - 1) ≡ r
bit_and_ones zero r h = ground (arith, bit_and-zero r)
bit_and_ones (suc k) r h =
    ground
      (arith, bit_and_digit r (2 ^ suc k - 1), pow-suc 2 k, one-le-pow k 2, bit_and_ones k (r / 2))

-- A mask of the `k` low bits is the remainder by `2 ^ k`.
pub bit_and_low : (k a : ℕ) → bit_and a (2 ^ k - 1) ≡ a % 2 ^ k
bit_and_low k a = ground (
  arith,
  one-le-pow k 2,
  bit_and_split k (a / 2 ^ k) 0 (a % 2 ^ k) (2 ^ k - 1),
  bit_and-zero (a / 2 ^ k),
  bit_and_ones k (a % 2 ^ k),
)

-- A table: a test that every number below a bound passes, by evaluation.
unfoldable pub table : ℕ → (ℕ → Bool) → Bool
table zero test = true
table (suc bound) test = if table bound test then test bound else false

pub table_entry :
    (bound : ℕ) (test : ℕ → Bool) → table bound test ≡ true → (n : ℕ) → n < bound → test n ≡ true
unfolding table
table_entry zero test full n below = absurd (omega arith)
table_entry (suc bound) test full n below =
    ground (arith, λ (rest : table bound test ≡ true). table_entry bound test rest n)

-- ===== src/Packet/Bytes.antt =====
-- `swap8` of cpp/sddspacket.h, and the byte orders of the C library on a little-endian host, which
-- the file assumes.
use native.Mathlib.Nat.{one-le-pow, mod-lt}
use native.Mathlib.Numerals.{towards_suc}
use sink_sdds.Base.{
  ℕ, ◌+◌, ◌*◌, ◌/◌, ◌%◌, ◌^◌, ◌<◌, ◌≡◌, ap, bit_or, bit_or_above, bit_or_split, bit_or-zero, arith,
}

infixl 75 ◌<<◌
abbrev pub ◌<<◌ : ℕ → ℕ → ℕ
x << k = x * 2 ^ k

-- `((uint8_t *)&val)[i]`.
abbrev pub byte_at : ℕ → ℕ → ℕ
byte_at val i = val / 256 ^ i % 256

abbrev upper_swap8 : ℕ → ℕ
upper_swap8 v =
    bit_or (bit_or (bit_or (byte_at v 0 << 56) (byte_at v 1 << 48)) (byte_at v 2 << 40))
      (byte_at v 3 << 32)

unfoldable pub swap8 : ℕ → ℕ
swap8 v =
    bit_or
      (bit_or (bit_or (bit_or (upper_swap8 v) (byte_at v 4 << 24)) (byte_at v 5 << 16))
        (byte_at v 6 << 8))
      (byte_at v 7)

-- `htons` and `ntohs` on a `uint16_t`.
unfoldable pub htons : ℕ → ℕ
htons x = x % 256 * 256 + x / 256 % 256

-- `htonl` and `ntohl` on a `uint32_t`.
unfoldable pub htonl : ℕ → ℕ
htonl x = byte_at x 0 * 2 ^ 24 + byte_at x 1 * 2 ^ 16 + byte_at x 2 * 2 ^ 8 + byte_at x 3

pub htons-lt : (x : ℕ) → htons x < 2 ^ 16
unfolding htons
htons-lt x = omega arith

pub htons-htons : (x : ℕ) → x < 2 ^ 16 → htons (htons x) ≡ x
unfolding htons
htons-htons x h = omega arith

pub htonl-lt : (x : ℕ) → htonl x < 2 ^ 32
unfolding htonl
htonl-lt x = omega arith

pub htonl-htonl : (x : ℕ) → x < 2 ^ 32 → htonl (htonl x) ≡ x
unfolding htonl
htonl-htonl x h = omega arith

pow_add_eight : (k : ℕ) → 2 ^ (k + 8) ≡ 256 * 2 ^ k
pow_add_eight k = simp towards_suc (omega arith)

-- One byte appended below `q`, as the expression of `swap8` does it.
join_byte : (k q x : ℕ) → x < 256 → bit_or (q * 2 ^ (k + 8)) (x * 2 ^ k) ≡ (q * 256 + x) * 2 ^ k
join_byte k q x h = ground (
  arith,
  one-le-pow k 2,
  ap (λ (t : ℕ). q * t) (pow_add_eight k),
  bit_or_split k (q * 256) x 0 0,
  bit_or_above 8 q x,
  bit_or-zero 0,
)

module _ (a b c d e f g h : ℕ) (hb : b < 256) (hc : c < 256) (hd : d < 256) (he : e < 256)
    (hf : f < 256) (hg : g < 256) (hh : h < 256) where
  or_bytes :
      bit_or
        (bit_or
          (bit_or
            (bit_or (bit_or (bit_or (bit_or (a << 56) (b << 48)) (c << 40)) (d << 32)) (e << 24))
            (f << 16))
          (g << 8))
        h
      ≡ ((((((a * 256 + b) * 256 + c) * 256 + d) * 256 + e) * 256 + f) * 256 + g) * 256 + h
  or_bytes =
      rw
        (
          join_byte 48 a b hb,
          join_byte 40 (a * 256 + b) c hc,
          join_byte 32 ((a * 256 + b) * 256 + c) d hd,
          join_byte 24 (((a * 256 + b) * 256 + c) * 256 + d) e he,
          join_byte 16 ((((a * 256 + b) * 256 + c) * 256 + d) * 256 + e) f hf,
          join_byte 8 (((((a * 256 + b) * 256 + c) * 256 + d) * 256 + e) * 256 + f) g hg,
        )
        (bit_or_above 8 ((((((a * 256 + b) * 256 + c) * 256 + d) * 256 + e) * 256 + f) * 256 + g) h
          hh)

byte_at-lt : (v i : ℕ) → byte_at v i < 256
byte_at-lt v i = mod-lt (v / 256 ^ i) (omega arith)

-- The bytes of `v` read in the reverse order.
abbrev pub reversed : ℕ → ℕ
reversed v =
    ((((((byte_at v 0 * 256 + byte_at v 1) * 256 + byte_at v 2) * 256 + byte_at v 3) * 256
                + byte_at v 4)
              * 256
            + byte_at v 5)
          * 256
        + byte_at v 6)
      * 256
    + byte_at v 7

pub swap8-reversed : (v : ℕ) → swap8 v ≡ reversed v
unfolding swap8
swap8-reversed v =
    or_bytes (byte_at v 0) (byte_at v 1) (byte_at v 2) (byte_at v 3) (byte_at v 4) (byte_at v 5)
      (byte_at v 6) (byte_at v 7) (byte_at-lt v 1) (byte_at-lt v 2) (byte_at-lt v 3)
      (byte_at-lt v 4) (byte_at-lt v 5) (byte_at-lt v 6) (byte_at-lt v 7)

pub swap8-lt : (v : ℕ) → swap8 v < 2 ^ 64
swap8-lt v = rw (swap8-reversed v) (omega arith)

-- Swapping twice gives a 64-bit value back.
pub swap8-swap8 : (v : ℕ) → v < 2 ^ 64 → swap8 (swap8 v) ≡ v
swap8-swap8 v h = rw (swap8-reversed v, swap8-reversed (reversed v)) (omega arith)

-- ===== src/Packet/Flags.antt =====
-- The 16-bit word `msptr` of cpp/sddspacket.h packs three flags, two spare bits and an 11-bit
-- pointer. Seen as a record of these fields, each setter changes its own field and no other.
use sink_sdds.Base.{
  ℕ, ◌+◌, ◌*◌, ◌/◌, ◌%◌, ◌^◌, ◌<◌, ◌≡◌, refl, Bool, true, not, ◌&&◌, bit_and, bit_or, arith,
  if◌then◌else◌, ◌==◌, table, table_entry, bit_or_split, bit_and_split, bit_and_low, bit_or-zero,
  bit_and-zero, zero-bit_or,
}
use sink_sdds.Packet.Bytes.{htons}
use sink_sdds.Packet.Header.{
  Header, get_msptr, set_msptr, clear_msptr, get_msv, get_ttv, get_sscv, set_msv, set_ttv, set_sscv,
}

-- What the word says: the first byte on the wire holds the flags and the top of the pointer.
pub record Pointer : Type 0 where
  pub msv : Bool
  pub ttv : Bool
  pub sscv : Bool
  pub spare : ℕ
  pub pointer : ℕ

abbrev bit : ℕ → Bool
bit n = n % 2 == 1

abbrev pub view : Header → Pointer
view h = record {
  msv = bit (h.msptr % 256 / 128);
  ttv = bit (h.msptr % 256 / 64);
  sscv = bit (h.msptr % 256 / 32);
  spare = h.msptr % 256 / 8 % 4;
  pointer = h.msptr % 8 * 256 + h.msptr / 256;
}

-- Facts about the flag byte, for every value of it.
or_flags :
    table 256 (λ b.
      (bit_or b 0x80 == b % 128 + 128)
      && (bit_or b 0x40 == b / 128 * 128 + b % 64 + 64)
      && (bit_or b 0x20 == b / 64 * 64 + b % 32 + 32))
    ≡ true
unfolding table
or_flags = refl

and_flags :
    table 256 (λ b.
      (bit_and b 0x7F == b % 128)
      && (bit_and b 0xBF == b / 128 * 128 + b % 64)
      && (bit_and b 0xDF == b / 64 * 64 + b % 32)
      && (bit_and b 0x80 == b / 128 * 128)
      && (bit_and b 0x40 == b / 64 % 2 * 64)
      && (bit_and b 0x20 == b / 32 % 2 * 32)
      && (bit_and b 0xE0 == b / 32 * 32))
    ≡ true
unfolding table
and_flags = refl

module _ (m k : ℕ) (hk : k < 256) where
  or_low : bit_or m k ≡ m / 256 * 256 + bit_or (m % 256) k
  or_low = ground (arith, bit_or_split 8 (m / 256) 0 (m % 256) k, bit_or-zero (m / 256))

  and_low : bit_and m k ≡ bit_and (m % 256) k
  and_low = ground (arith, bit_and_split 8 (m / 256) 0 (m % 256) k, bit_and-zero (m / 256))

  and_high : m < 2 ^ 16 → bit_and m (0xFF00 + k) ≡ m / 256 * 256 + bit_and (m % 256) k
  and_high h = ground (arith, bit_and_split 8 (m / 256) 255 (m % 256) k, bit_and_low 8 (m / 256))

flag_table :
    (b : ℕ)
    → b < 256
    → (bit_or b 0x80 ≡ b % 128 + 128)
      × (bit_or b 0x40 ≡ b / 128 * 128 + b % 64 + 64)
      × (bit_or b 0x20 ≡ b / 64 * 64 + b % 32 + 32)
flag_table b h = ground (arith, table_entry 256 _ or_flags b h)

mask_table :
    (b : ℕ)
    → b < 256
    → (bit_and b 0x7F ≡ b % 128)
      × (bit_and b 0xBF ≡ b / 128 * 128 + b % 64)
      × (bit_and b 0xDF ≡ b / 64 * 64 + b % 32)
      × (bit_and b 0x80 ≡ b / 128 * 128)
      × (bit_and b 0x40 ≡ b / 64 % 2 * 64)
      × (bit_and b 0x20 ≡ b / 32 % 2 * 32)
      × (bit_and b 0xE0 ≡ b / 32 * 32)
mask_table b h = ground (arith, table_entry 256 _ and_flags b h)

module _ (h : Header) (fits : h.msptr < 2 ^ 16) where
  view-set_msv : (flag : ℕ) → view (set_msv flag h) ≡ record (view h) { msv = not (flag == 0) }
  unfolding set_msv
  view-set_msv flag = ground (
    arith,
    flag_table (h.msptr % 256),
    mask_table (h.msptr % 256),
    or_low h.msptr 0x80,
    and_high h.msptr 0x7F,
  )

  view-set_ttv : (flag : ℕ) → view (set_ttv flag h) ≡ record (view h) { ttv = not (flag == 0) }
  unfolding set_ttv
  view-set_ttv flag = ground (
    arith,
    flag_table (h.msptr % 256),
    mask_table (h.msptr % 256),
    or_low h.msptr 0x40,
    and_high h.msptr 0xBF,
  )

  view-set_sscv : (flag : ℕ) → view (set_sscv flag h) ≡ record (view h) { sscv = not (flag == 0) }
  unfolding set_sscv
  view-set_sscv flag = ground (
    arith,
    flag_table (h.msptr % 256),
    mask_table (h.msptr % 256),
    or_low h.msptr 0x20,
    and_high h.msptr 0xDF,
  )

  set_msptr-word :
      (val : ℕ)
      → (set_msptr val h).msptr ≡ val % 256 * 256 + h.msptr % 256 / 32 * 32 + val % 2048 / 256
  unfolding set_msptr htons
  set_msptr-word val = ground (
    arith,
    mask_table (h.msptr % 256),
    and_low h.msptr 0xE0,
    bit_and_low 11 val,
    or_low (val % 256 * 256 + val % 2048 / 256) (h.msptr % 256 / 32 * 32),
    bit_or_split 5 0 (h.msptr % 256 / 32) (val % 2048 / 256) 0,
    zero-bit_or (h.msptr % 256 / 32),
    bit_or-zero (val % 2048 / 256),
  )

  view-set_msptr :
      (val : ℕ) → view (set_msptr val h) ≡ record (view h) { spare = 0; pointer = val % 2048 }
  view-set_msptr val = ground (arith, set_msptr-word val)

  view-clear_msptr : view (clear_msptr h) ≡ record (view h) { spare = 0; pointer = 0 }
  unfolding clear_msptr
  view-clear_msptr = ground (arith, mask_table (h.msptr % 256), and_low h.msptr 0xE0)

  -- On a 16-bit word, `set_msv`, `set_ttv` and `set_sscv` each set or clear their own flag and keep
  -- the other flags, the spare bits and the pointer. `set_msptr` stores the low 11 bits of the
  -- value and `clear_msptr` stores 0; both keep the flags and clear the spare bits.
  pub setters_view :
      (val : ℕ)
      → (view (set_msv val h) ≡ record (view h) { msv = not (val == 0) })
        × (view (set_ttv val h) ≡ record (view h) { ttv = not (val == 0) })
        × (view (set_sscv val h) ≡ record (view h) { sscv = not (val == 0) })
        × (view (set_msptr val h) ≡ record (view h) { spare = 0; pointer = val % 2048 })
        × (view (clear_msptr h) ≡ record (view h) { spare = 0; pointer = 0 })
  setters_view val =
      (view-set_msv val, view-set_ttv val, view-set_sscv val, view-set_msptr val, view-clear_msptr)

  -- On a 16-bit word, `get_msptr` returns the pointer, and the three flag getters return their
  -- mask if the flag is set and 0 if it is not.
  getters_view :
      (get_msptr h ≡ (view h).pointer)
      × (get_msv h ≡ (if (view h).msv then 0x80 else 0))
      × (get_ttv h ≡ (if (view h).ttv then 0x40 else 0))
      × (get_sscv h ≡ (if (view h).sscv then 0x20 else 0))
  unfolding get_msptr get_msv get_ttv get_sscv htons
  getters_view = (
    ground (arith, bit_and_low 11 (htons h.msptr)),
    ground (arith, mask_table (h.msptr % 256), and_low h.msptr 0x80),
    ground (arith, mask_table (h.msptr % 256), and_low h.msptr 0x40),
    ground (arith, mask_table (h.msptr % 256), and_low h.msptr 0x20),
  )

  -- A setter keeps the word within 16 bits.
  pub setters_fit :
      (val : ℕ)
      → ((set_msv val h).msptr < 2 ^ 16)
        × ((set_ttv val h).msptr < 2 ^ 16)
        × ((set_sscv val h).msptr < 2 ^ 16)
        × ((set_msptr val h).msptr < 2 ^ 16)
  unfolding set_msv set_ttv set_sscv
  setters_fit val = (
    ground (
      arith,
      flag_table (h.msptr % 256),
      mask_table (h.msptr % 256),
      or_low h.msptr 0x80,
      and_high h.msptr 0x7F,
    ),
    ground (
      arith,
      flag_table (h.msptr % 256),
      mask_table (h.msptr % 256),
      or_low h.msptr 0x40,
      and_high h.msptr 0xBF,
    ),
    ground (
      arith,
      flag_table (h.msptr % 256),
      mask_table (h.msptr % 256),
      or_low h.msptr 0x20,
      and_high h.msptr 0xDF,
    ),
    omega (arith, set_msptr-word val),
  )

-- ===== src/Processor/Reading.antt =====
-- `getDataPointer` of cpp/BulkIOToSDDSProcessor.cpp: one read of the stream, and the byte order.
pub mod ByteOrder
pub mod Payload
use sink_sdds.Base.{
  ℕ, suc, ◌*◌, ◌/◌, Bool, false, ◌||◌, none, some, List, [], ◌∷◌, ◌++◌, if◌then◌else◌, ◌==◌, length,
}
use sink_sdds.Packet.Wire.{le_bytes}
use sink_sdds.Processor.Types.{Native, octet, short, float, sizeof, Read, Processor}

abbrev pub sdds_data_size : ℕ
sdds_data_size = 1024

-- How many samples fill a packet: a complex sample is two elements.
unfoldable pub read_size : Native → ℕ → ℕ
read_size native mode = sdds_data_size / sizeof native / (if mode == 0 then 1 else 2)

-- The elements of a block in memory.
unfoldable pub memory : Native → List ℕ → List ℕ
memory native [] = []
memory native (e ∷ es) = le_bytes (sizeof native) e ++ memory native es

-- `swab(p, p, n)` exchanges the bytes of each pair among the first `n`.
unfoldable pub swab : ℕ → List ℕ → List ℕ
swab (suc (suc n)) (a ∷ b ∷ rest) = b ∷ a ∷ swab n rest
swab _ bytes = bytes

-- `buf[i] = __builtin_bswap32(buf[i])` for the first `n` words.
unfoldable pub bswap_words : ℕ → List ℕ → List ℕ
bswap_words (suc n) (a ∷ b ∷ c ∷ d ∷ rest) = d ∷ c ∷ b ∷ a ∷ bswap_words n rest
bswap_words _ bytes = bytes

-- The switch on sizeof(NATIVE_TYPE), on a block of `size` elements.
unfoldable pub swap_in_place : Native → ℕ → List ℕ → List ℕ
unfolding swab bswap_words
swap_in_place octet size bytes = bytes
swap_in_place short size bytes = swab (size * sizeof short) bytes
swap_in_place float size bytes = bswap_words size bytes

-- The results of the call: the processor, the number of bytes, where they are, and `sriChanged`.
pub record Data : Type 0 where
  pub after : Processor
  pub bytes_read : ℕ
  pub bytes : List ℕ
  pub sri_changed : Bool

unfoldable pub get_data_pointer : Read → Processor → Data
unfolding read_size memory swap_in_place
get_data_pointer r p = elim (r.block (read_size p.native p.stream.sri.mode)) [
  | none ↦ record {
    after = record p { stream = r.stream };
    bytes_read = 0;
    bytes = [];
    sri_changed = false;
  }
  | some block ↦
      let size = length block.elements in
      let raw = memory p.native block.elements in
      let fresh = p.first_run || block.sri_changed in
      record {
        after = record p {
          stream = r.stream;
          current_time = block.timestamp;
          sri = (if fresh then block.sri else p.sri);
        };
        bytes_read = size * sizeof p.native;
        bytes =
            (if p.user_settings.endian_representation == 0
              then raw
              else swap_in_place p.native size raw);
        sri_changed = fresh;
      }
]

-- ===== src/Processor/Reading/Payload.antt =====
-- What `getDataPointer` of cpp/BulkIOToSDDSProcessor.cpp hands on are bytes, as many as it reports.
use sink_sdds.Base.{
  ℕ, zero, suc, ◌*◌, ◌≡◌, refl, inl, inr, List, [], ◌∷◌, length, AllBelow, append-AllBelow,
  Option-cases, ◌==◌, if_both, arith,
}
use sink_sdds.Packet.Wire.{le_bytes}
use sink_sdds.Packet.Decode.{le_bytes-AllBelow}
use sink_sdds.Processor.Types.{Native, octet, short, float, sizeof, Read, Processor}
use sink_sdds.Processor.Reading.{
  read_size, memory, swab, bswap_words, swap_in_place, get_data_pointer,
}
use sink_sdds.Processor.Reading.ByteOrder.{length-memory}

-- `count` bytes.
abbrev pub AreBytes : ℕ → List ℕ → Type 0
AreBytes count bytes = AllBelow 256 bytes × (length bytes ≡ count)

memory-AllBelow : (native : Native) (es : List ℕ) → AllBelow 256 (memory native es)
unfolding memory
memory-AllBelow native [] = tt
memory-AllBelow native (e ∷ es) =
    append-AllBelow 256 (le_bytes (sizeof native) e) (memory native es)
      (le_bytes-AllBelow (sizeof native) e) (memory-AllBelow native es)

swab-AreBytes :
    (n : ℕ) (bytes : List ℕ) → AllBelow 256 bytes → AreBytes (length bytes) (swab n bytes)
unfolding swab
swab-AreBytes zero bytes h = (h, refl)
swab-AreBytes (suc zero) bytes h = (h, refl)
swab-AreBytes (suc (suc n)) [] h = (h, refl)
swab-AreBytes (suc (suc n)) (a ∷ []) h = (h, refl)
swab-AreBytes (suc (suc n)) (a ∷ b ∷ rest) h = ground (arith, swab-AreBytes n rest h.1.1)

bswap_words-AreBytes :
    (n : ℕ) (bytes : List ℕ) → AllBelow 256 bytes → AreBytes (length bytes) (bswap_words n bytes)
unfolding bswap_words
bswap_words-AreBytes zero bytes h = (h, refl)
bswap_words-AreBytes (suc n) [] h = (h, refl)
bswap_words-AreBytes (suc n) (a ∷ []) h = (h, refl)
bswap_words-AreBytes (suc n) (a ∷ b ∷ []) h = (h, refl)
bswap_words-AreBytes (suc n) (a ∷ b ∷ c ∷ []) h = (h, refl)
bswap_words-AreBytes (suc n) (a ∷ b ∷ c ∷ d ∷ rest) h = ground (arith, bswap_words-AreBytes n rest)

swap_in_place-AreBytes :
    (native : Native) (size : ℕ) (bytes : List ℕ)
    → AllBelow 256 bytes
    → AreBytes (length bytes) (swap_in_place native size bytes)
unfolding swap_in_place
swap_in_place-AreBytes octet size bytes h = (h, refl)
swap_in_place-AreBytes short size bytes h = swab-AreBytes (size * 2) bytes h
swap_in_place-AreBytes float size bytes h = bswap_words-AreBytes size bytes h

pub get_data_pointer-AreBytes :
    (r : Read) (p : Processor)
    → AreBytes (get_data_pointer r p).bytes_read (get_data_pointer r p).bytes
unfolding get_data_pointer
get_data_pointer-AreBytes r p =
    elim (Option-cases (r.block (read_size p.native p.stream.sri.mode))) [
      | inl e ↦ rw (e, get_data_pointer) (tt, refl)
      | inr (block, e) ↦
          let raw = memory p.native block.elements in
          let below = memory-AllBelow p.native block.elements in
          let swapped = swap_in_place-AreBytes p.native (length block.elements) raw below in
          let long = length-memory p.native block.elements in
          rw (e, get_data_pointer)
            (if_both (AreBytes (length block.elements * sizeof p.native))
              (p.user_settings.endian_representation == 0) raw _ (below, long)
              (swapped.0, omega (arith, swapped.1, long)))
    ]

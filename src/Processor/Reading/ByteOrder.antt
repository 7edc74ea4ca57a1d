-- ===== src/Processor/Reading/ByteOrder.antt =====
-- The bytes that `getDataPointer` hands on, against the elements of the block.
use sink_sdds.Base.{
  ℕ, suc, ◌*◌, ◌^◌, ◌<◌, ◌≡◌, refl, some, List, [], ◌∷◌, ◌++◌, arith, if◌then◌else◌, ◌==◌, length,
}
use sink_sdds.Packet.Wire.{be_bytes}
use sink_sdds.Processor.Types.{Native, octet, short, float, sizeof, Block, Read, Processor}
use sink_sdds.Processor.Reading.{
  sdds_data_size, read_size, memory, swab, bswap_words, swap_in_place, get_data_pointer,
}

-- The elements in network order.
unfoldable pub network : Native → List ℕ → List ℕ
network native [] = []
network native (e ∷ es) = be_bytes (sizeof native) e ++ network native es

-- Values of the native type.
abbrev pub AllFit : Native → List ℕ → Type 0
AllFit native [] = Unit
AllFit native (e ∷ es) = (e < 256 ^ sizeof native) × AllFit native es

swap_octets : (es : List ℕ) → AllFit octet es → memory octet es ≡ network octet es
unfolding memory network
swap_octets [] h = refl
swap_octets (e ∷ es) h = ground (arith, swap_octets es h.1)

swap_shorts : (es : List ℕ) → swab (length es * 2) (memory short es) ≡ network short es
unfolding memory network swab
swap_shorts [] = refl
swap_shorts (e ∷ es) =
    let two_more : suc (length es) * 2 ≡ suc (suc (length es * 2)) = omega arith in
    rw two_more (ground (arith, swap_shorts es))

swap_floats : (es : List ℕ) → bswap_words (length es) (memory float es) ≡ network float es
unfolding memory network bswap_words
swap_floats [] = refl
swap_floats (e ∷ es) = ground (arith, swap_floats es)

swap_in_place-network :
    (native : Native) (es : List ℕ)
    → AllFit native es
    → swap_in_place native (length es) (memory native es) ≡ network native es
unfolding swap_in_place
swap_in_place-network octet es h = swap_octets es h
swap_in_place-network short es h = swap_shorts es
swap_in_place-network float es h = swap_floats es

pub length-memory :
    (native : Native) (es : List ℕ) → length (memory native es) ≡ length es * sizeof native
unfolding memory
length-memory octet [] = refl
length-memory octet (e ∷ es) = omega (arith, length-memory octet es)
length-memory short [] = refl
length-memory short (e ∷ es) = omega (arith, length-memory short es)
length-memory float [] = refl
length-memory float (e ∷ es) = omega (arith, length-memory float es)

length-network :
    (native : Native) (es : List ℕ) → length (network native es) ≡ length es * sizeof native
unfolding network
length-network octet [] = refl
length-network octet (e ∷ es) = omega (arith, length-network octet es)
length-network short [] = refl
length-network short (e ∷ es) = omega (arith, length-network short es)
length-network float [] = refl
length-network float (e ∷ es) = omega (arith, length-network float es)

-- When the read for the samples of one packet returns a block of native values, `getDataPointer` hands
-- on as many bytes as it reports: the values in network order if the user asked for big endian, and as
-- they lie in memory if not.
pub get_data_pointer_bytes :
    (r : Read) (p : Processor) (block : Block)
    → r.block (read_size p.native p.stream.sri.mode) ≡ some block
    → AllFit p.native block.elements
    → let d = get_data_pointer r p in
      (d.bytes ≡ (
        if p.user_settings.endian_representation == 0
        then memory p.native block.elements
        else network p.native block.elements))
      × (length d.bytes ≡ d.bytes_read)
unfolding get_data_pointer
get_data_pointer_bytes r p block e h =
    rw (e, get_data_pointer)
      (
        ground (arith, swap_in_place-network p.native block.elements h),
        ground (
          arith,
          swap_in_place-network p.native block.elements h,
          length-memory p.native block.elements,
          length-network p.native block.elements,
        ),
      )

-- The read asks for the samples of exactly one packet: a complex sample is two elements, and their
-- bytes are the 1024 of the payload.
read_size_bytes :
    (native : Native) (mode : ℕ)
    → read_size native mode * (if mode == 0 then 1 else 2) * sizeof native ≡ sdds_data_size
unfolding read_size
read_size_bytes octet mode = ground arith
read_size_bytes short mode = ground arith
read_size_bytes float mode = ground arith

-- ===== src/Packet/Decode.antt =====
-- The bytes that SDDSpacket of cpp/sddspacket.h occupies are bytes, and a header can be read from them.
use sink_sdds.Base.{
  ℕ, zero, suc, ◌+◌, ◌*◌, ◌/◌, ◌%◌, ◌^◌, ◌<◌, ◌≡◌, refl, List, [], ◌∷◌, ◌++◌, length, take, drop,
  arith, AllBelow, append-AllBelow, ap,
}
use native.Mathlib.Nat.{pow-suc}
use sink_sdds.Packet.Layout.{FitsLayout}
use sink_sdds.Packet.Header.{Header}
use sink_sdds.Packet.Wire.{le_bytes, le_words, encode}

pub le_bytes-AllBelow : (count v : ℕ) → AllBelow 256 (le_bytes count v)
le_bytes-AllBelow zero v = tt
le_bytes-AllBelow (suc count) v = (omega arith, le_bytes-AllBelow count (v / 256))

le_words-AllBelow : (ws : List ℕ) → AllBelow 256 (le_words ws)
unfolding le_words
le_words-AllBelow [] = tt
le_words-AllBelow (w ∷ ws) =
    append-AllBelow 256 (le_bytes 2 w) (le_words ws) (le_bytes-AllBelow 2 w) (le_words-AllBelow ws)

-- What the header occupies are bytes.
pub encode-AllBelow : (h : Header) → FitsLayout h → AllBelow 256 (encode h)
unfolding encode
encode-AllBelow h (bits, words, arrays) =
    let rest = append-AllBelow 256 (le_words h.ssd) h.aad (le_words-AllBelow h.ssd) arrays.3 in
    ground (arith, bits, rest)

-- `count` bytes in memory as a number, the low byte first.
abbrev pub le_number : ℕ → List ℕ → ℕ
le_number zero bytes = 0
le_number (suc count) [] = 0
le_number (suc count) (b ∷ bytes) = b + 256 * le_number count bytes

abbrev pub byte : ℕ → List ℕ → ℕ
byte i bytes = le_number 1 (drop i bytes)

-- A header read from its bytes, each field at the place that the declaration gives it.
unfoldable pub decode : List ℕ → Header
decode bytes = record {
  dmode = byte 0 bytes % 8;
  ss = byte 0 bytes / 8 % 2;
  of = byte 0 bytes / 16 % 2;
  pp = byte 0 bytes / 32 % 2;
  sos = byte 0 bytes / 64 % 2;
  sf = byte 0 bytes / 128 % 2;
  bps = byte 1 bytes % 32;
  unused = byte 1 bytes / 32 % 4;
  cx = byte 1 bytes / 128 % 2;
  seq = le_number 2 (drop 2 bytes);
  msptr = le_number 2 (drop 4 bytes);
  msdel = le_number 2 (drop 6 bytes);
  ttag = le_number 8 (drop 8 bytes);
  ttage = le_number 4 (drop 16 bytes);
  dfdt = le_number 4 (drop 20 bytes);
  freq = le_number 8 (drop 24 bytes);
  ssd = le_number 2 (drop 32 bytes) ∷ le_number 2 (drop 34 bytes) ∷ [];
  aad = take 20 (drop 36 bytes);
}

take-prefix : (n : ℕ) (xs ys : List ℕ) → length xs ≡ n → take n (xs ++ ys) ≡ xs
take-prefix zero [] ys h = refl
take-prefix zero (x ∷ xs) ys h = absurd (omega arith)
take-prefix (suc n) [] ys h = absurd (omega arith)
take-prefix (suc n) (x ∷ xs) ys h = ap (◌∷◌ x) (take-prefix n xs ys (omega arith))

le_number-le_bytes :
    (count v : ℕ) (rest : List ℕ) → v < 256 ^ count → le_number count (le_bytes count v ++ rest) ≡ v
le_number-le_bytes zero v rest h = omega arith
le_number-le_bytes (suc count) v rest h =
    let below : v / 256 < 256 ^ count = omega (arith, pow-suc 256 count) in
    omega (arith, le_number-le_bytes count (v / 256) rest below)

le_number-le_words :
    (ws aad rest : List ℕ)
    → length ws ≡ 2
    → AllBelow (2 ^ 16) ws
    → let lain = (le_words ws ++ aad) ++ rest in
      (le_number 2 lain ∷ le_number 2 (drop 2 lain) ∷ [] ≡ ws) × (drop 4 lain ≡ aad ++ rest)
unfolding le_words
le_number-le_words [] aad rest h below = absurd (omega arith)
le_number-le_words (a ∷ []) aad rest h below = absurd (omega arith)
le_number-le_words (a ∷ b ∷ []) aad rest h below = ground arith
le_number-le_words (a ∷ b ∷ c ∷ ws) aad rest h below = absurd (omega arith)

-- A header whose fields have the widths and lengths of their declaration is what is read, at the
-- declared places, from the bytes that it occupies, whatever follows them in the datagram.
pub decode-encode : (h : Header) (rest : List ℕ) → FitsLayout h → decode (encode h ++ rest) ≡ h
unfolding decode encode
decode-encode h rest (bits, words, arrays) =
    let aad_back = take-prefix 20 h.aad rest arrays.2 in
    let ssd_back = le_number-le_words h.ssd h.aad rest arrays.0 arrays.1 in
    let ttag = le_number-le_bytes 8 h.ttag [] words.3 in
    let freq = le_number-le_bytes 8 h.freq [] words.6 in
    ground (arith, bits, words, aad_back, ssd_back, ttag, freq)

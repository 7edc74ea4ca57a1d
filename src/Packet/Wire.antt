-- ===== src/Packet/Wire.antt =====
-- The 56 header bytes that SDDSpacket occupies in memory, and so the first 56 bytes of the datagram:
-- bit-fields from the lowest bit up, wider fields with the low byte first, as on x86.
use sink_sdds.Base.{
  ℕ, zero, suc, ◌+◌, ◌*◌, ◌/◌, ◌%◌, ◌^◌, ◌<◌, ◌≡◌, ap₂, List, [], ◌∷◌, ◌++◌, length, length-append,
  take, drop, arith,
}
use sink_sdds.Packet.Bytes.{
  htons, htonl, swap8, swap8-reversed, swap8-swap8, htons-htons, htonl-htonl,
}
use sink_sdds.Packet.Time.{SddsTime, IsSddsTime}
use sink_sdds.Packet.Header.{
  Header, get_seq, set_seq, get_msdel, set_msdel, get_ttag, set_ttag, get_sdds_time, set_sdds_time,
}

-- `count` bytes of a number in memory.
abbrev pub le_bytes : ℕ → ℕ → List ℕ
le_bytes zero v = []
le_bytes (suc count) v = v % 256 ∷ le_bytes count (v / 256)

-- `count` bytes of a number in network order.
abbrev pub be_bytes : ℕ → ℕ → List ℕ
be_bytes zero v = []
be_bytes (suc count) v = v / 256 ^ count % 256 ∷ be_bytes count v

unfoldable pub le_words : List ℕ → List ℕ
le_words [] = []
le_words (w ∷ ws) = le_bytes 2 w ++ le_words ws

unfoldable pub encode : Header → List ℕ
unfolding le_words
encode h =
    (h.dmode + h.ss * 8 + h.of * 16 + h.pp * 32 + h.sos * 64 + h.sf * 128)
    ∷ (h.bps + h.unused * 32 + h.cx * 128)
    ∷ (le_bytes 2 h.seq
        ++ (le_bytes 2 h.msptr
            ++ (le_bytes 2 h.msdel
                ++ (le_bytes 8 h.ttag
                    ++ (le_bytes 4 h.ttage
                        ++ (le_bytes 4 h.dfdt
                            ++ (le_bytes 8 h.freq ++ (le_words h.ssd ++ h.aad))))))))

length-le_words : (ws : List ℕ) → length (le_words ws) ≡ 2 * length ws
unfolding le_words
length-le_words [] = omega arith
length-le_words (w ∷ ws) = omega (arith, length-le_words ws)

-- With two `ssd` words and twenty `aad` bytes the header is the 56 bytes of SDDS_HEADER_SIZE.
pub length-encode : (h : Header) → length h.ssd ≡ 2 → length h.aad ≡ 20 → length (encode h) ≡ 56
unfolding encode
length-encode h s a = omega (arith, length-append {0} (le_words h.ssd) h.aad, length-le_words h.ssd)

-- Values swapped by the setters lie in network order.
pub wire_htons : (v : ℕ) → v < 2 ^ 16 → le_bytes 2 (htons v) ≡ be_bytes 2 v
unfolding htons
wire_htons v h = ground arith

pub wire_htonl : (v : ℕ) → le_bytes 4 (htonl v) ≡ be_bytes 4 v
unfolding htonl
wire_htonl v = ground arith

pub wire_swap8 : (v : ℕ) → le_bytes 8 (swap8 v) ≡ be_bytes 8 v
wire_swap8 v = rw (swap8-reversed v) (ground arith)

module _ (h : Header) where
  -- What the setters store for the sequence number (of 16 bits), the time tag and the delta (of 16 bits)
  -- lies in the datagram in network order: the sequence number at byte 2, the delta at byte 6, the ticks
  -- at byte 8 and the fraction of a tick at byte 16, whatever the other fields hold.
  pub encode-setters :
      (seq delta : ℕ) (t : SddsTime)
      → seq < 2 ^ 16
      → delta < 2 ^ 16
      → (take 2 (drop 2 (encode (set_seq seq h))) ≡ be_bytes 2 seq)
        × (take 2 (drop 6 (encode (set_msdel delta h))) ≡ be_bytes 2 delta)
        × (take 8 (drop 8 (encode (set_sdds_time t h))) ≡ be_bytes 8 t.ps250)
        × (take 4 (drop 16 (encode (set_sdds_time t h))) ≡ be_bytes 4 t.pf250)
  unfolding encode set_seq set_msdel set_sdds_time
  encode-setters seq delta t hs hd =
      (wire_htons seq hs, wire_htons delta hd, wire_swap8 t.ps250, wire_htonl t.pf250)

  -- Each of these getters gives back what its setter stored, for values of the field's width.
  pub getters-setters :
      (seq delta : ℕ) (t : SddsTime)
      → seq < 2 ^ 16
      → delta < 2 ^ 16
      → IsSddsTime t
      → (get_seq (set_seq seq h) ≡ seq)
        × (get_msdel (set_msdel delta h) ≡ delta)
        × (get_ttag (set_ttag t.ps250 h) ≡ t.ps250)
        × (get_sdds_time (set_sdds_time t h) ≡ t)
  unfolding get_seq set_seq get_msdel set_msdel get_ttag set_ttag get_sdds_time set_sdds_time
  getters-setters seq delta t hs hd ht = (
    htons-htons seq hs,
    htons-htons delta hd,
    swap8-swap8 t.ps250 ht.0,
    ap₂ (λ (a b : ℕ). record { ps250 = a; pf250 = b }) (swap8-swap8 t.ps250 ht.0)
        (htonl-htonl t.pf250 ht.1),
  )

-- ===== src/Processor/Send/Numbering.antt =====
-- The sequence numbers that `sendPacket` gives out, from the constructor's `m_seq(0)` on.
use sink_sdds.Base.{
  ℕ, zero, suc, ◌+◌, ◌*◌, ◌/◌, ◌%◌, ◌^◌, ◌<◌, ◌≡◌, ◌≢◌, refl, List, [], ◌∷◌, arith,
}
use sink_sdds.Processor.Send.{next_seq}

-- The number after `k` packets, and the numbers of the next `k` packets, from `seq`.
unfoldable pub after_packets : ℕ → ℕ → ℕ
after_packets zero seq = seq
after_packets (suc k) seq = next_seq (after_packets k seq)

unfoldable pub numbers : ℕ → ℕ → List ℕ
numbers zero seq = []
numbers (suc k) seq = seq ∷ numbers k (next_seq seq)

pub next_seq-lt : (seq : ℕ) → next_seq seq < 2 ^ 16
unfolding next_seq
next_seq-lt seq = ground arith

-- Rounds of 32 numbers, of which the last one is left out, modulo 2 ^ 16.
abbrev pub numbered : ℕ → ℕ
numbered k = (k / 31 * 32 + k % 31) % 2 ^ 16

next_seq-numbered : (k : ℕ) → next_seq (numbered k) ≡ numbered (suc k)
unfolding next_seq
next_seq-numbered k = ground arith

after_packets-numbered : (k : ℕ) → after_packets k 0 ≡ numbered k
unfolding after_packets
after_packets-numbered zero = refl
after_packets-numbered (suc k) = rw (after_packets-numbered k) (next_seq-numbered k)

-- Counted from 0, the k-th packet of a processor has the number k / 31 * 32 + k % 31, modulo 2 ^ 16:
-- no packet has a number that is 31 modulo 32, the place of a parity packet. The number comes back after
-- 63488 packets, and no packet from 1 to 63487 later has it.
pub after_packets_lem :
    (k j : ℕ)
    → 0 < j
    → j < 63488
    → (after_packets k 0 ≡ numbered k)
      × (after_packets k 0 % 32 ≢ 31)
      × (after_packets (k + 63488) 0 ≡ after_packets k 0)
      × (after_packets (k + j) 0 ≢ after_packets k 0)
after_packets_lem k j lo hi = (
  after_packets-numbered k,
  omega (arith, after_packets-numbered k),
  omega (arith, after_packets-numbered k, after_packets-numbered (k + 63488)),
  omega (arith, after_packets-numbered k, after_packets-numbered (k + j)),
)

-- The number that follows `k` packets from `seq`, the first packet taken apart.
pub after_packets-suc :
    (k seq : ℕ) → after_packets k (next_seq seq) ≡ next_seq (after_packets k seq)
unfolding after_packets
after_packets-suc zero seq = refl
after_packets-suc (suc k) seq = rw (after_packets-suc k seq)

-- ===== src/Tests.antt =====
-- The theorems at concrete inputs.
mod Samples
mod Packets
mod Processing
mod Threads
mod Decks
mod Sessions
mod Interleavings
mod Schedule
mod Descriptors
mod Conversions

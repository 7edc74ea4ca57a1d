-- ===== src/Processor.antt =====
-- cpp/BulkIOToSDDSProcessor.h and cpp/BulkIOToSDDSProcessor.cpp
pub mod Types
pub mod Keywords
pub mod Template
pub mod Reading
pub mod Send
pub mod Calls
pub mod Loop
pub mod Lifecycle
pub mod Moves
pub mod Invariant
pub mod Numbered
pub mod Datagrams

-- ===== src/Protocol.antt =====
-- The frame protocol: `include/litearm/protocol.hpp` and `src/protocol.cpp`.
pub mod Crc
pub mod Frame
pub mod Scalar
pub mod Status
pub mod Tables
pub mod Version

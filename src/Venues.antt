-- ===== src/Venues.antt =====
-- The code of venues/: byte order and trimming (common.cpp) and the messages (bse.h).
pub mod Endian
pub mod Trim
pub mod Messages

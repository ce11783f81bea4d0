-- ===== src/Checksum.antt =====
-- include/checksum.h: the checksums of the upload protocol.
pub mod Crc16
pub mod Md5
mod Tests

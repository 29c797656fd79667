-- ===== src/Wire.antt =====
-- encoding/binary's big-endian order, and a net.Conn as a stream that io.ReadFull reads.
pub mod Endian
pub mod Stream

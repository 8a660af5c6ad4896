-- ===== src/Bytes.antt =====
-- byte_bufs.h, byte_bufs.impl and byte_bufs.cc: bounded little endian readers and writers.
pub mod Reader
pub mod Writer
pub mod Append
pub mod RoundTrip
pub mod Total

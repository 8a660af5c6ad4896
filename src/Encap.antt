-- ===== src/Encap.antt =====
-- enet_encap/encap.h and encap.cc: the encapsulation layer of EtherNet/IP.
pub mod Session
pub mod Header
mod Tests
pub mod Commands

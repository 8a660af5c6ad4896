-- ===== src/Conn.antt =====
-- The connections of cip/cipconnection.h, cipconnection.cc, cipconnectionmanager.h and
-- cipconnectionmanager.cc.
pub mod Params
pub mod Header32
pub mod Path
pub mod Data
pub mod Count
pub mod Resolve
pub mod Sizes
pub mod Box
pub mod State
pub mod Close
pub mod Find
pub mod Pool
pub mod Manage
pub mod Receive
mod Tests

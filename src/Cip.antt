-- ===== src/Cip.antt =====
-- cip/: the object model, the messages that address it and the connections between devices.
pub mod Table
pub mod Class
pub mod Data
pub mod Attribute
pub mod Access
mod Tests

-- ===== src/Epath.antt =====
-- cip/cipepath.h and cip/cipepath.cc: the segments of a CIP path and the groups that hold them.
pub mod Flags
pub mod Logical
pub mod Segment
pub mod AppPath
pub mod Port
pub mod Key
pub mod DataSegment
pub mod Group
mod Tests

-- ===== src/Tc.antt =====
-- The telecommand uplink: BCH blocks, CLTUs, transfer frames and segments.
pub mod Bch
pub mod Cltu
pub mod Frame
pub mod Segment
mod Examples

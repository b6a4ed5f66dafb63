-- ===== src/Tm.antt =====
-- Telemetry transfer frames: connectivity/ccsds/ccsds_tm_frame.c and .h.
pub mod State
pub mod Routes
pub mod Pending
pub mod Build
pub mod Generator
pub mod Queue
pub mod Stream
pub mod Frames
pub mod Rounds
pub mod Field
pub mod Whole
pub mod Enqueue
pub mod Delivery
pub mod Selection
mod Examples

-- ===== src/System.antt =====
-- The processes together.
pub mod Log
pub mod Message
pub mod Order
pub mod Tape

-- ===== src/Stream.antt =====
-- The read loop that resp.rs and mqtt.rs share: bytes that arrive are added to a buffer, and each
-- item that is complete is taken off its front and handled.
pub mod Defs
pub mod Chunks
pub mod Returns
pub mod Items

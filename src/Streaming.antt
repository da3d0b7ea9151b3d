-- ===== src/Streaming.antt =====
-- The Schwab market data feed, src/subapps/schwab/streaming.
pub mod Pool
pub mod Ladder
pub mod Osi
pub mod Session

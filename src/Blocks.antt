-- ===== src/Blocks.antt =====
-- The algorithm blocks of plugins/algorithm_blocks_ts/src/blocks.
pub mod MovingAverage
pub mod Pid
pub mod Summarizer
mod Tests

-- ===== src/Tools.antt =====
-- tools/: the synthetic order flow, and the file between its generator and the replay tool.
pub mod SyntheticWorkload
pub mod OrderFile
mod Tests

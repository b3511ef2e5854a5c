-- ===== src/Experiments.antt =====
-- The experiments (src/python/beeflow/experiments).
pub mod Controller
pub mod Managers
pub mod Bucket
pub mod Config

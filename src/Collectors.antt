-- ===== src/Collectors.antt =====
-- The collectors: src/collectors and include/minilisysm/collectors.
pub mod Baselines
pub mod IoDelay
pub mod CpuUsage
pub mod Status
pub mod SchedDelay
mod Tests

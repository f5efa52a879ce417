-- ===== src/Rules.antt =====
-- include/minilisysm/rules/rule_engine.hpp and src/rules/rule_engine.cpp.
pub mod Threshold
pub mod Trace
pub mod Events
pub mod Engine
pub mod Debounce
pub mod Cooldown
pub mod Liveness
mod Tests

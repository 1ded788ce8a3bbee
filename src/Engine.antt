-- ===== src/Engine.antt =====
-- arguss/engine/: the kill switch, the fix-confidence engine, fix discovery and consolidation.
pub mod KillSwitch
pub mod FixConfidence
pub mod Discovery
pub mod Consolidate

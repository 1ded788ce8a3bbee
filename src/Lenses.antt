-- ===== src/Lenses.antt =====
-- arguss/lenses: the signals that the engine's verdicts rest on.
pub mod Trust
pub mod Vulnerability
pub mod Pipeline

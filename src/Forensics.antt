-- ===== src/Forensics.antt =====
-- The detectors of forensics/.
pub mod Circular
pub mod Anomaly

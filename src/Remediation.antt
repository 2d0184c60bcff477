-- ===== src/Remediation.antt =====
-- Remediation of files that hold sensitive data (src/openlabels/remediation).
pub mod Manifest
pub mod Quarantine

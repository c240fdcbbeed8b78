-- ===== src/Core.antt =====
-- internal/core: severities, findings and their fingerprints, targets, check metadata, the shared work of a run.
pub mod Severity
pub mod Finding
pub mod Target
pub mod Check
pub mod Memo

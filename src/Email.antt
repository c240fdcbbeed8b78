-- ===== src/Email.antt =====
-- checks/email/internal: the parsers of the records that mail servers read.
pub mod Tags
pub mod Spf
pub mod Mtasts
pub mod Dmarc

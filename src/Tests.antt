-- ===== src/Tests.antt =====
-- The theorems at concrete inputs.
mod Samples
mod CoreTests
mod RegistryTests
mod EngineTests
mod StateTests
mod FilterTests
mod NotifyTests
mod EmailTests
mod MemoTests
mod PolicyTests

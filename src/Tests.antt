-- ===== src/Tests.antt =====
-- Concrete inputs for the theorems.
mod SrtTests
mod LaneTests
mod TranslateTests
mod GuardTests
mod LangTests
mod LedgerTests
mod AsrTests
mod StateTests
mod LadderTests

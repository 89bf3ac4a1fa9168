-- ===== src/Tests.antt =====
-- Tests of the definitions, and the theorems at concrete inputs.
mod Samples
mod FilterTests
mod ParseTests
mod ServerTests
mod CacheTests
mod ClientTests
mod ZoneTests
mod StageTests
mod AuthTests
mod UpstreamTests
mod NotifierTests
mod RefreshTests
mod ConfsyncTests

-- ===== src/Tests.antt =====
-- The theorems at concrete inputs, with concrete functions for what the program takes from other
-- packages.
mod Serial
mod Codecs
mod CacheTests
mod BlocksTests
mod ServiceTests
mod IngestorTests
mod SnapshotTests
mod AddressTests
mod MempoolTests

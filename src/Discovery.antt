-- ===== src/Discovery.antt =====
-- internal/discovery: finding and naming JVMs.
pub mod Filter
pub mod Host
pub mod Launch
pub mod Naming
pub mod PerfData
pub mod Scan

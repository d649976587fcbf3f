-- ===== src/Diag.antt =====
-- internal/jvmdiag: what the diagnostic dumps of a JVM are read as.
pub mod Deadlock
pub mod Pileup
pub mod Histogram

-- ===== src/Ebpf.antt =====
-- internal/ebpf: the processes that are no JVMs, and which of them are watched.
pub mod Targets
pub mod Sharing
pub mod Registry
pub mod Supervisor

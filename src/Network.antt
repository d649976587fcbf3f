-- ===== src/Network.antt =====
-- What the kernel's tables under /proc say of a process's network.
pub mod Ports
pub mod Route

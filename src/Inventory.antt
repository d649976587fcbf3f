-- ===== src/Inventory.antt =====
-- internal/inventory: the tracked JVMs, their lifecycle and its events.
pub mod Types
pub mod Bus
pub mod Lifecycle
pub mod Manager

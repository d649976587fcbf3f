-- ===== src/Injector.antt =====
-- internal/injector: instrumenting a running JVM.
pub mod Endpoint
pub mod Render
pub mod Steps

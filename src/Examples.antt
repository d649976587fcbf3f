-- ===== src/Examples.antt =====
-- Concrete runs of every part.
mod Processes
mod Events
mod Dumps
mod Requests
mod PerfFiles
mod Spans
mod Exports
mod Scans
mod Injections
mod Watching

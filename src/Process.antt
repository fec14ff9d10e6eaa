-- ===== src/Process.antt =====
-- kernel/src/process: the process table.
pub mod Lifecycle

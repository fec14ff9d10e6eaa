-- ===== src/Shell.antt =====
-- apps/shell: the shell.
pub mod Editor
pub mod Parser
mod Tests

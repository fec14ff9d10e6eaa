-- ===== src/Time.antt =====
-- kernel/src/time: deadlines in ticks, and the fixed set of deadlines that one owner waits for.
pub mod Deadline
pub mod Waits
mod Tests

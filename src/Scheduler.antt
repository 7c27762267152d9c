-- ===== src/Scheduler.antt =====
-- src/mellowlang/agents/scheduling: the retry delays and the job queue.
pub mod Backoff
pub mod Queue
pub mod Tests

-- ===== src/Scheduler.antt =====
-- cluster_manager/task_scheduler/: which task runs next, and on which threads.
pub mod HistoryManager
pub mod TaskManager
pub mod AvailableWorkers
pub mod SelectThreads
pub mod Pool
pub mod SequentialScheduler
pub mod GreedyScheduler
mod Examples

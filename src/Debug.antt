-- ===== src/Debug.antt =====
-- debug/: the queue of log messages between the threads that write and the one that shows them.
pub mod LogQueue

-- ===== src/Events.antt =====
-- events/: the global state of the host and its listeners.
pub mod SyncGlobals

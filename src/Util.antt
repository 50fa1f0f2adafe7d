-- ===== src/Util.antt =====
-- include/ncaf/internal/util.h.
pub mod LockGuarded
pub mod Semaphore

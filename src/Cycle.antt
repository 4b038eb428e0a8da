-- ===== src/Cycle.antt =====
-- src/lingx/core/cycle.cc: the modules' places in the configuration, and the connection pool.
pub mod Modules
pub mod Connections
pub mod Init

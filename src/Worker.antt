-- ===== src/Worker.antt =====
-- The email worker: services/worker/src/nebula_worker.
pub mod Poller
mod Tests

-- ===== src/Web.antt =====
-- src/web: the admission windows and budgets that every model-burning web endpoint passes, and the
-- durable queue of agent requests.
pub mod Admission
pub mod LaneLock
pub mod Requests

-- ===== src/Web/Requests.antt =====
-- src/web/agent-requests.ts: the durable queue of agent requests.
pub mod Rows
pub mod State
pub mod Queue
pub mod Execution
pub mod Steps
pub mod Examples

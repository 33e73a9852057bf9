-- ===== src/Agent.antt =====
-- src/agent: admission to the model's response slots, and the plan of a request.
pub mod Responses
pub mod Plan

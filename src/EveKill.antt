-- ===== src/EveKill.antt =====
-- src/eve-kill: the topics that a chat watches.
pub mod Watch

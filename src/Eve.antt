-- ===== src/Eve.antt =====
-- src/eve: the map of the systems and the searches on it.
pub mod MapGraph

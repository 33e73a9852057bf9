-- ===== src/EveMap.antt =====
-- src/eve-map: the route that the pilot flies, the systems that the pilot avoids.
pub mod ActiveRoute
pub mod Avoid
pub mod Planning

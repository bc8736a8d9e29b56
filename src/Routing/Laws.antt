-- ===== src/Routing/Laws.antt =====
-- The order of the candidates, and what a routing decision promises.
pub mod Perms
pub mod Every
pub mod Ascending
pub mod Decision

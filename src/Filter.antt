-- ===== src/Filter.antt =====
-- The filter stage, internal/filter: the domain sets, the rules and lists that they serve, the pause
-- state, and the middleware.
pub mod DomainSet
pub mod Ruleset
pub mod Pauses
pub mod Engine
pub mod Parse

-- ===== src/Engine.antt =====
-- The rules engine (daemon/src/pporlock/engine).
pub mod Models
pub mod Provenance
pub mod Matcher
pub mod RuleSet
pub mod HeaderRules
pub mod Modules
pub mod Stubs
pub mod Evaluator
pub mod Cost
pub mod Exclusions

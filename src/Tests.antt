-- ===== src/Tests.antt =====
-- Tests and witnesses, by component.
mod Data
mod Wire
mod Ring
mod Sink
mod Events
mod Rules
mod Evaluator
mod Registry
mod Control
mod Redact
mod Store
mod Session
mod Exclusions
mod Settings
mod Compile

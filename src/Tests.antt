-- ===== src/Tests.antt =====
-- Runs of the development on concrete inputs.
mod Fixtures
mod Tags
mod Creation
mod Updates
mod Outcomes
mod Methods
mod Concurrency
mod Copies
mod Store
mod Answers
mod Exports
mod Reading
mod InStep
mod Startup

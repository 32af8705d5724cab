-- ===== src/Agent.antt =====
-- The AI agent link: src/agent-events.
pub mod Mapper
pub mod Events
pub mod Outbox

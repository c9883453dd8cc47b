-- ===== src/Agent.antt =====
-- The conversational agent: apps/api/app/agent.
pub mod Memory
pub mod Budget
pub mod Authority
pub mod Turn
pub mod Orchestrator
pub mod Tools
pub mod PolicyTools
pub mod Endpoints

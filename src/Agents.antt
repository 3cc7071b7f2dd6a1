-- ===== src/Agents.antt =====
-- The subagents of an agent, in web-client/overlay/client/src/lib/subagents.
pub mod Collect

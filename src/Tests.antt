-- ===== src/Tests.antt =====
-- Concrete inputs for the theorems that have conditions.
mod Store
mod Worker
mod Fork
mod Proxy
mod Sdk
mod Rag
mod Shim
mod Collateral
mod Agents
mod Prompt

-- ===== src/Runtime.antt =====
-- core/tool_runtime.py: which tool calls of an agent's session run.
pub mod State
pub mod Authorize
pub mod Admit
pub mod Execute
pub mod Invoke
pub mod Steps
pub mod Once
pub mod Grants

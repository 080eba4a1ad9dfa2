-- ===== src/Workflow.antt =====
-- core/workflow*.py: workflow definitions and the rules by which agents act on task cards.
pub mod Value
pub mod Repr
pub mod Definition
pub mod Contract
pub mod Responses
pub mod Rules
pub mod Matching
pub mod Lifecycle
pub mod RuntimeAction
pub mod Graph
pub mod RuleCheck

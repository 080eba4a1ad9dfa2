-- ===== src/Queue.antt =====
-- core/task_routing.py, core/task_delivery_store.py, core/task_delivery_execution.py and
-- core/task_delivery_planner.py: which agent an event of a card is for, and the queue of its
-- deliveries to agents' sessions.
pub mod Tables
pub mod Dispatch
pub mod Execution
pub mod Finish
pub mod Waiting
pub mod Turns
pub mod Claim
pub mod Recover
pub mod Calls
pub mod Queries
pub mod Plan
pub mod Machine
pub mod Exclusive

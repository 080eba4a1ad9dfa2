-- ===== src/Delivery.antt =====
-- core/git_facts.py and core/delivery.py: what a task that is delivered through git has to show.
pub mod Git
pub mod Input
pub mod Mode
pub mod Resources
pub mod Gate
pub mod Apply

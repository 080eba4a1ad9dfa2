-- ===== src/Tools.antt =====
-- core/teamflow_tools.py: the tools by which agents create and move cards.
pub mod World
pub mod Visible
pub mod Execute
pub mod Actions
pub mod Listing
pub mod Lookup

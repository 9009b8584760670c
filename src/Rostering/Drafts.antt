-- ===== src/Rostering/Drafts.antt =====
-- app/rostering/service.py: the current draft of a workday, its lock, and the edits of its rows.
pub mod Copy
pub mod Edit
pub mod Immutable
pub mod Fresh
pub mod Pointers
pub mod Same
pub mod Commands
pub mod Started

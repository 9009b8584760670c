-- ===== src/Rostering.antt =====
-- app/rostering.
pub mod Models
pub mod Timing
pub mod Travel
pub mod Store
pub mod Candidates
pub mod Conflicts
pub mod Drafts
pub mod Decline
pub mod Steps
pub mod Diff
pub mod Publication

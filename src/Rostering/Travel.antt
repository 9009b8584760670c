-- ===== src/Rostering/Travel.antt =====
-- app/rostering/travel.py: what an assignment's effective clock times and instants are, and the
-- standard overnight travel plan.
pub mod Effective
pub mod Interval
pub mod Standard
pub mod Rollover
pub mod Window

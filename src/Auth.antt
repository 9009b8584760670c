-- ===== src/Auth.antt =====
-- app/auth: who may do what.
pub mod Policy

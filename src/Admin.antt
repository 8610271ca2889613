-- ===== src/Admin.antt =====
-- The administration: app/api/admin.py, behind `require_admin` of app/core/deps.py.
pub mod State
pub mod Service
pub mod Sessions
pub mod Revocation

-- ===== src/Access.antt =====
-- Who may read what, and how often: app/core/rbac.py and app/core/ratelimit.py.
pub mod Rbac
pub mod Queries
pub mod Readable
pub mod Decisions
pub mod Redis
pub mod Quota
pub mod Counters
pub mod Balance
pub mod Slots
pub mod Overlap

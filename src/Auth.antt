-- ===== src/Auth.antt =====
-- Who is asking: app/core/security.py, app/core/redis.py, app/core/deps.py and app/api/auth.py. Times
-- are whole microseconds.
pub mod Tokens
pub mod Requests
pub mod Authorized
pub mod Denied
pub mod Rotation

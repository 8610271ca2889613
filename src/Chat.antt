-- ===== src/Chat.antt =====
-- The conversations: app/api/chat.py over the tables of app/models/chat.py.
pub mod Rows
pub mod Conversations
pub mod Turns
pub mod Histories
pub mod Kept
pub mod Isolation
pub mod Ratings
pub mod Answers

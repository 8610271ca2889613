-- ===== src/Gaps.antt =====
-- The report of unanswered questions: app/services/knowledge_gaps.py.
pub mod Classify
pub mod Report
pub mod Tally

-- ===== src/Context.antt =====
-- The context assembler and what it stands on: the token estimate of app/ingestion/chunker.py, the
-- rank fusion of app/retrieval/fusion.py, and app/context/assembler.py.
pub mod Estimate
pub mod Fusion
pub mod Assembler

-- ===== src/Graph.antt =====
-- The agent graph: app/graph/state.py, nodes.py and builder.py, and the turn that app/api/chat.py
-- runs on it.
pub mod State
pub mod FollowUp
pub mod NativeMarkers
pub mod Router
pub mod Services
pub mod Nodes
pub mod Builder
pub mod Termination
pub mod Invariant
pub mod Grounding
pub mod Retries
pub mod Scope
pub mod Turns

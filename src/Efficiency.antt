-- ===== src/Efficiency.antt =====
-- .ai/foundation/runtime/processing_efficiency.py: the reuse of analyses in a session, and budgets.
pub mod Session
pub mod Budget
mod Tests

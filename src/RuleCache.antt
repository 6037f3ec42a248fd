-- ===== src/RuleCache.antt =====
-- .ai/foundation/rule_context_cache/rule_context_cache.py: the cache of rule analyses.
pub mod Texts
pub mod Graph
pub mod Record
pub mod Validate
pub mod Compare
pub mod Capture
pub mod Recording
pub mod Chain
pub mod Discovery
pub mod Fingerprint
mod Tests

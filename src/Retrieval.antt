-- ===== src/Retrieval.antt =====
-- retrieval/quality_repair/*.py: the shaping of evidence after retrieval.
pub mod Roles
pub mod Evidence

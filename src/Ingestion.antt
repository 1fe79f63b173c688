-- ===== src/Ingestion.antt =====
-- ingestion/*.py
pub mod Chunking

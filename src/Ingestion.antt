-- ===== src/Ingestion.antt =====
-- project/src/ingestion: the chunking stage of the pipeline.
pub mod Chunk

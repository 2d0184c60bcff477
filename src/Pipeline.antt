-- ===== src/Pipeline.antt =====
-- src/openlabels/core/pipeline: what happens to detected spans and to long texts.
pub mod Resolver
pub mod Chunking
pub mod Validation
pub mod EntityResolver

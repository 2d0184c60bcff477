-- ===== src/Types.antt =====
-- src/openlabels/core/types.py: the shared types of the detection pipeline.
pub mod Entities
pub mod Spans
mod Examples

-- ===== src/Policies.antt =====
-- Policy evaluation: src/openlabels/core/policies/schema.py and engine.py.
pub mod Schema
pub mod Engine
pub mod Evaluate
mod Examples

-- ===== src/Checksum.antt =====
-- Validators of identifiers by checksum: src/openlabels/core/detectors/checksum.py and the validators
-- that it shares in src/openlabels/core/_rust/validators_py.py. Texts are ASCII.
pub mod Digits
pub mod Identity
pub mod Tracking
pub mod Instruments
pub mod Luhn
pub mod Weights
mod Examples

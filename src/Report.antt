-- ===== src/Report.antt =====
-- audit/report_processing.py: reports packed into bits for the chain, and read back.
pub mod Bits
pub mod Header
pub mod Types
pub mod Json
pub mod Vulnerabilities
pub mod Produce
pub mod Compress
pub mod Police

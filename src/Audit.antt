-- ===== src/Audit.antt =====
-- How a report comes about: audit/wrapper.py, audit/analyzer.py and the rest of
-- audit/threads/perform_audit_thread.py.
pub mod Wrapper
pub mod Compilation
pub mod Analyzers
pub mod Performed

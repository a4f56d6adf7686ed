-- ===== src/Monitoring.antt =====
-- lumenos_sandbox/monitoring.py
pub mod Integrity
pub mod Patterns
pub mod Monitor

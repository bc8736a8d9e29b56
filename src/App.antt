-- ===== src/App.antt =====
-- mixapi/app.py: the request handlers.
pub mod Dispatch
pub mod Estimates
pub mod Admission
pub mod Handlers

-- ===== src/Display.antt =====
-- components/display_service: who may present frames on the one panel.
pub mod Lease
pub mod Service

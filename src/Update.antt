-- ===== src/Update.antt =====
-- components/update_check_service: the check for a newer firmware.
pub mod Version
pub mod Download
pub mod Check

-- ===== src/AiCreate.antt =====
-- components/mosaic_ui/common/ai_create_controller.c and ai_create_session_history.c: the conversation of
-- the AI create App.
pub mod Transcript
pub mod Tracks
pub mod Controller
pub mod Events
pub mod Submit
pub mod Abort
pub mod Sessions
pub mod Voice
pub mod Dictation
pub mod Start
pub mod Stretches
mod Tests
pub mod History

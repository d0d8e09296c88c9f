-- ===== src/Voice.antt =====
-- Voice input of the AI Create App: the port that its controller uses and the session behind it.
pub mod Port
pub mod Session

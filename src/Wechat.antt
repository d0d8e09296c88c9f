-- ===== src/Wechat.antt =====
-- Binding of a WeChat account: the status that the backend reports, the queue that carries it to
-- the user interface, and the flow that the interface shows.
pub mod Status
pub mod Queue
pub mod Flow

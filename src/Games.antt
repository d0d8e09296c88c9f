-- ===== src/Games.antt =====
-- components/mosaic_ui/apps: the games.
pub mod Breakout

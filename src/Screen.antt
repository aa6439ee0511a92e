-- ===== src/Screen.antt =====
-- tools/screenshot.py: the text of the console on the screen.
pub mod Layout
pub mod Window
pub mod Page
mod Tests

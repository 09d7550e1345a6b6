-- ===== src/Tty.antt =====
-- core/tty: windows on a text display, and the queue of input characters.
pub mod Window
pub mod Cell
pub mod Row
pub mod Block
pub mod Scroll
pub mod Print
pub mod Text
pub mod Queue
mod Tests

-- ===== src/Tui.antt =====
-- The terminal client: the text editor of crates/favetto-tui/src/tui/text_buffer.rs.
pub mod TextBuffer
pub mod Zipper
pub mod Graphemes
pub mod Words
pub mod Lines
pub mod Columns
pub mod Edits
pub mod Cuts
pub mod Steps
pub mod Refines

-- ===== src/Clipboard.antt =====
-- domains/clipboard: the clipboard command and the handler that copies finished transcripts.
pub mod Adapter
pub mod Auto
mod Examples

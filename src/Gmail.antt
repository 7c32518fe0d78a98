-- ===== src/Gmail.antt =====
-- packages/gmail: the history of a mailbox and its projection to canonical messages.
pub mod History
pub mod Projection
pub mod Parsers
pub mod Pages

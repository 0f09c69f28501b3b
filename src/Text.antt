-- ===== src/Text.antt =====
-- Texts as the program handles them: bytes, stream reading, searching and numbers.
pub mod Bytes
pub mod Stream
pub mod Number
pub mod Search

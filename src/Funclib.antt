-- ===== src/Funclib.antt =====
-- funclib: the helpers that the server, the database layer and the market maker share.
pub mod Split
pub mod DataQueue
pub mod InitParser
pub mod Logwriter

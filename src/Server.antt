-- ===== src/Server.antt =====
-- The servers and clients that keep a table of peers: the preforked server that passes descriptors,
-- the server over select, and the client that reads several files with threads.
pub mod Pool
pub mod Prefork
pub mod Select
pub mod Poll

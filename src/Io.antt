-- ===== src/Io.antt =====
-- unp/unpv13e/lib: readn.c, writen.c and readline.c over a descriptor whose behaviour is a list of
-- events.
pub mod Events
pub mod Readn
pub mod Writen
pub mod Readline

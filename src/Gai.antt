-- ===== src/Gai.antt =====
-- unp/unpv13e/libgai: getaddrinfo, getnameinfo and the functions that they are made of.
-- `Defs` holds the structures and constants, `Eai` the error codes; then one module for each
-- function or pair of functions, and one for what a whole call does with memory.
pub mod Defs
pub mod Eai
pub mod Check
pub mod Search
pub mod Struct
pub mod Port
pub mod Serv
pub mod Unix
pub mod Lookup
pub mod Call
pub mod Name
pub mod Leaks

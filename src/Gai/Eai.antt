-- ===== src/Gai/Eai.antt =====
-- unp/unpv13e/libgai/addrinfo.h: the EAI_xxx error codes.
use cpplearn.Common.{ℕ}

abbrev pub addrfamily : ℕ
addrfamily = 1

abbrev pub again : ℕ
again = 2

abbrev pub badflags : ℕ
badflags = 3

abbrev pub fail : ℕ
fail = 4

abbrev pub family : ℕ
family = 5

abbrev pub memory : ℕ
memory = 6

abbrev pub nodata : ℕ
nodata = 7

abbrev pub noname : ℕ
noname = 8

abbrev pub service : ℕ
service = 9

abbrev pub socktype : ℕ
socktype = 10

abbrev pub system : ℕ
system = 11

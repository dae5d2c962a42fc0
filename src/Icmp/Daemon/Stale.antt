-- ===== src/Icmp/Daemon/Stale.antt =====
-- unp/unpv13e/icmpd/readable_listen.c: an entry that is taken again keeps what its last client registered.
use cpplearn.Common.{ℕ, ◌≡◌, some}
use cpplearn.Icmp.Daemon.{Client, Daemon}

-- An entry holds a descriptor.
abbrev pub IsTaken : Client → Type 0
IsTaken c = (fd : ℕ) × (c.connfd ≡ some fd)

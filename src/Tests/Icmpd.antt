-- ===== src/Tests/Icmpd.antt =====
-- The daemon for ICMP errors at concrete inputs.
use cpplearn.Common.{
  ℕ, false, ◌≡◌, ◌↔◌, refl, true, none, some, List, [], ◌∷◌, ◌++◌, Bytes, take, drop, if◌then◌else◌,
  ◌==◌, arith,
}
use cpplearn.Icmp.{word_at}
use cpplearn.Gai.Defs.{af_inet}
use cpplearn.Icmp.Daemon.{
  Client, Daemon, found_clients, found_entry, is_for, send_errors, write_each, quit, pass_error,
  error_v4, readable_v4,
}
use cpplearn.Icmp.Daemon.Conn.{Turn, turn}
use cpplearn.Icmp.Daemon.Table.{IsTable}
use cpplearn.Icmp.Daemon.Turns.{Serves, turn-Serves}
use cpplearn.Icmp.Daemon.Clients.{Delivers, In, Listed, pass_error-Delivers}

-- The first client has left; it and the second one had registered the same port.
abbrev first : Client
first = record { connfd = none; family = af_inet; lport = 0x1234 }

abbrev second : Client
second = record { connfd = some 8; family = af_inet; lport = 0x1234 }

abbrev daemon : Daemon
daemon = record {
  client = first ∷ second ∷ [];
  used = 2;
  maxfd = 8;
  allset = 8 ∷ 4 ∷ 3 ∷ [];
  written = [];
  closed = 7 ∷ [];
  write_fails = λ fd. false;
}

-- An IP header, "port unreachable", an IP header that carries UDP, and the ports.
abbrev buf : Bytes
buf =
    0x45 ∷ 0 ∷ 0 ∷ 0 ∷ 0 ∷ 0 ∷ 0 ∷ 0 ∷ 64 ∷ 1 ∷ 0 ∷ 0 ∷ 10 ∷ 0 ∷ 0 ∷ 1 ∷ 10 ∷ 0 ∷ 0 ∷ 2 ∷ 3 ∷ 3 ∷ 0
    ∷ 0 ∷ 0 ∷ 0 ∷ 0 ∷ 0 ∷ 0x45 ∷ 0 ∷ 0 ∷ 0 ∷ 0 ∷ 0 ∷ 0 ∷ 0 ∷ 1 ∷ 17 ∷ 0 ∷ 0 ∷ 10 ∷ 0 ∷ 0 ∷ 2 ∷ 10
    ∷ 0 ∷ 9 ∷ 9 ∷ 0x34 ∷ 0x12 ∷ 0 ∷ 53 ∷ 0 ∷ 0 ∷ 0 ∷ 0 ∷ []

daemon-IsTable : IsTable 2 8 (first ∷ second ∷ [])
daemon-IsTable = (tt, (omega arith, tt))

sport_read : word_at buf 48 ≡ some 0x1234
unfolding word_at
sport_read = refl

dport_read : word_at buf 50 ≡ some 0x3500
unfolding word_at
dport_read = refl

pass_error-Delivers_example :
    (fds : List ℕ) × Delivers daemon 3 3 0x3500
      (10 ∷ 0 ∷ 9 ∷ 9 ∷ [])
      fds
      (pass_error daemon buf 20 20 3 3)
    × ((fd : ℕ) → In fd fds ↔ Listed fd 0x1234 (first ∷ second ∷ []))
pass_error-Delivers_example =
    pass_error-Delivers daemon buf 20 20 3 3 0x1234 0x3500 (10 ∷ 0 ∷ 9 ∷ 9 ∷ []) sport_read
      dport_read refl daemon-IsTable

-- The client 8 has gone: the Write to it ends the daemon.
write_ends : pass_error (record daemon { write_fails = λ fd. fd == 8 }) buf 20 20 3 3 ≡ some quit
unfolding pass_error send_errors write_each found_clients found_entry is_for word_at
write_ends = refl

-- A connection, the error, and a client that goes.
abbrev one_turn : Turn
one_turn = record {
  accepted = some 9;
  packet = some buf;
  readable = λ fd.
      if fd == 8
      then some (record { ended = true; recvfd = none; sockname = none; bound = none })
      else none;
  nready = 3;
}

turn-Serves_example : Serves (turn one_turn daemon)
turn-Serves_example = turn-Serves one_turn daemon daemon-IsTable

-- The IP header inside may have options; the test of 36 bytes does not count them.
abbrev with_options : Bytes
with_options = take 28 buf ++ (0x4f ∷ drop 29 buf)

read_behind : readable_v4 with_options daemon ≡ none
unfolding readable_v4 error_v4 pass_error word_at
read_behind = refl

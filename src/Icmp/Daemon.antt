-- ===== src/Icmp/Daemon.antt =====
-- unp/unpv13e/icmpd: the daemon that passes ICMP errors to the clients whose UDP ports they are about.
pub mod Clients
pub mod Conn
pub mod Deliver
pub mod Stale
pub mod Table
pub mod Turns
use cpplearn.Common.{
  ℕ, zero, suc, ◌+◌, ◌-◌, Bool, ◌&&◌, ◌||◌, Option, none, some, List, [], ◌∷◌, ◌++◌, map, Bytes,
  length, take, drop, if◌then◌else◌, ◌==◌, ltb, leb,
}
use cpplearn.Icmp.{
  ◌>>=◌, byte_at, word_at, header_length, icmp_unreach, icmp_timxceed, icmp_sourcequench,
  icmp_unreach_port, icmp_unreach_needfrag, ipproto_udp,
}
use cpplearn.Gai.Defs.{af_inet}

-- `connfd` is `none` for -1; `lport` is in network byte order.
pub record Client : Type 0 where
  pub connfd : Option ℕ
  pub family : ℕ
  pub lport : ℕ

abbrev pub econnrefused : ℕ
econnrefused = 111

abbrev pub emsgsize : ℕ
emsgsize = 90

abbrev pub ehostunreach : ℕ
ehostunreach = 113

-- struct icmpd_err, with the address and the port of its sockaddr_in.
pub record IcmpdErr : Type 0 where
  pub icmpd_errno : ℕ
  pub icmpd_type : ℕ
  pub icmpd_code : ℕ
  pub sin_addr : Bytes
  pub sin_port : ℕ

-- What is written to a client: an ICMP error, or "1" or "0".
pub data Message : Type 0 where
  icmp_error : IcmpdErr → Message
  all_ok bad : Message

pub record Daemon : Type 0 where
  pub client : List Client
  -- one more than `maxi`
  pub used : ℕ
  pub maxfd : ℕ
  pub allset : List ℕ
  -- what was written to the clients, the latest last, and the descriptors that were closed
  pub written : List (ℕ × Message)
  pub closed : List ℕ
  -- what the kernel answers: the descriptors to which a Write fails, which ends the daemon
  pub write_fails : ℕ → Bool

abbrev pub behind : Client → Option (ℕ × List Client) → Option (ℕ × List Client)
behind c none = none
behind c (some (i, rest)) = some (suc i, c ∷ rest)

unfoldable pub saved_entry :
    ℕ → Client → List Client → Option (ℕ × List Client) → Option ℕ → Option (ℕ × List Client)
saved_entry connfd c rest later none = some (0, record c { connfd = some connfd } ∷ rest)
saved_entry connfd c rest later (some fd) = behind c later

-- readable_listen: the first available entry takes the descriptor, the rest of it stays.
unfoldable pub save_client : ℕ → List Client → Option (ℕ × List Client)
save_client connfd [] = none
save_client connfd (c ∷ rest) = saved_entry connfd c rest (save_client connfd rest) c.connfd

abbrev pub max_of : ℕ → ℕ → ℕ
max_of a b = if ltb a b then b else a

unfoldable pub listen_saved : ℕ → Daemon → Option (ℕ × List Client) → Daemon
listen_saved connfd d none = record d { closed = connfd ∷ d.closed }
listen_saved connfd d (some (i, table)) = record d {
  client = table;
  allset = connfd ∷ d.allset;
  maxfd = max_of d.maxfd connfd;
  used = max_of d.used (suc i);
}

unfoldable pub readable_listen : ℕ → Daemon → Daemon
readable_listen connfd d = listen_saved connfd d (save_client connfd d.client)

-- readable_v4: the errno for a type and code.
abbrev pub errno_of : (type code : ℕ) → ℕ
errno_of type code =
    if type == icmp_unreach
    then (if code == icmp_unreach_port
        then econnrefused
        else if code == icmp_unreach_needfrag
        then emsgsize
        else ehostunreach)
    else ehostunreach

unfoldable pub is_for : ℕ → Client → Bool
is_for sport c = c.family == af_inet && c.lport == sport

unfoldable pub found_entry : ℕ → Client → List ℕ → Option ℕ → List ℕ
found_entry sport c later none = later
found_entry sport c later (some fd) = if is_for sport c then fd ∷ later else later

-- The clients up to `maxi` that the loop finds.
unfoldable pub found_clients : ℕ → ℕ → List Client → List ℕ
found_clients sport zero clients = []
found_clients sport (suc n) [] = []
found_clients sport (suc n) (c ∷ rest) = found_entry sport c (found_clients sport n rest) c.connfd

-- What readable_v4 does: it returns, or err_quit or a failing Write ends the daemon.
pub data Handled : Type 0 where
  handled : Daemon → Handled
  quit : Handled

abbrev pub address_at : Bytes → ℕ → Option Bytes
address_at buf i = if leb (i + 4) (length buf) then some (take 4 (drop i buf)) else none

-- The Writes to the clients, one after the other.
unfoldable pub write_each : Daemon → Message → List ℕ → Handled
write_each d m [] = handled d
write_each d m (fd ∷ fds) =
    let rest = write_each (record d { written = d.written ++ ((fd, m) ∷ []) }) m fds in
    if d.write_fails fd then quit else rest

-- The headers are read and written for each client that is found.
unfoldable pub send_errors : Daemon → Bytes → (hlen1 hlen2 type code : ℕ) → List ℕ → Option Handled
send_errors d buf hlen1 hlen2 type code [] = some (handled d)
send_errors d buf hlen1 hlen2 type code (fd ∷ fds) = do
  dest ← address_at buf (hlen1 + 8 + 16)
  dport ← word_at buf (hlen1 + 8 + hlen2 + 2)
  let e : IcmpdErr = record {
    icmpd_errno = errno_of type code;
    icmpd_type = type;
    icmpd_code = code;
    sin_addr = dest;
    sin_port = dport;
  }
  some (write_each d (icmp_error e) (fd ∷ fds))

-- The UDP header inside the error, behind the IP header at `hlen1 + 8`.
unfoldable pub pass_error : Daemon → Bytes → (hlen1 hlen2 type code : ℕ) → Option Handled
pass_error d buf hlen1 hlen2 type code = do
  sport ← word_at buf (hlen1 + 8 + hlen2)
  send_errors d buf hlen1 hlen2 type code (found_clients sport d.used d.client)

abbrev pub is_error : ℕ → Bool
is_error type = type == icmp_unreach || type == icmp_timxceed || type == icmp_sourcequench

unfoldable pub error_v4 : Daemon → Bytes → (hlen1 type code : ℕ) → Option Handled
error_v4 d buf hlen1 type code = if ltb (length buf - hlen1) (8 + 20 + 8) then some quit else do
  first ← byte_at buf (hlen1 + 8)
  protocol ← byte_at buf (hlen1 + 8 + 9)
  if protocol == ipproto_udp
      then pass_error d buf hlen1 (header_length first) type code
      else some (handled d)

unfoldable pub readable_v4 : Bytes → Daemon → Option Handled
readable_v4 buf d = do
  first ← byte_at buf 0
  let hlen1 = header_length first
  if ltb (length buf) (hlen1 + 8) then some quit else do
    type ← byte_at buf hlen1
    code ← byte_at buf (hlen1 + 1)
    if is_error type then error_v4 d buf hlen1 type code else some (handled d)

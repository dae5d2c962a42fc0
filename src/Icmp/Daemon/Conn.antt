-- ===== src/Icmp/Daemon/Conn.antt =====
-- unp/unpv13e/icmpd: readable_conn.c, and the loop of main.
use cpplearn.Common.{
  ℕ, zero, suc, ◌-◌, ◌^◌, Bool, Option, none, some, List, [], ◌∷◌, ◌++◌, Bytes, if◌then◌else◌, ◌==◌,
}
use cpplearn.Icmp.Daemon.{
  Client, Message, Daemon, readable_listen, Handled, readable_v4, all_ok, bad, handled, quit,
}

-- readable_conn: what read_fd gives: the end of the file or bytes, each with a descriptor or none;
-- then what getsockname gives, a family and a port, and what sock_bind_wild gives, 0 or less being
-- `none`. A descriptor that is no socket of the Internet, for which sock_get_port is -1, is left out.
pub record Passed : Type 0 where
  pub ended : Bool
  pub recvfd : Option ℕ
  pub sockname : Option (ℕ × ℕ)
  pub bound : Option ℕ

abbrev pub close_recvfd : Option ℕ → List ℕ → List ℕ
close_recvfd none closed = closed
close_recvfd (some fd) closed = fd ∷ closed

unfoldable pub fd_clr : ℕ → List ℕ → List ℕ
fd_clr fd [] = []
fd_clr fd (x ∷ rest) = let others = fd_clr fd rest in if x == fd then others else x ∷ others

-- The labels clienterr and clientdone; `told` is what was written before.
unfoldable pub client_done : ℕ → Option ℕ → List (ℕ × Message) → Client → Daemon → Client × Daemon
client_done unixfd recvfd told c d = (
  record c { connfd = none },
  record d {
    written = d.written ++ told;
    closed = close_recvfd recvfd (unixfd ∷ d.closed);
    allset = fd_clr unixfd d.allset;
  },
)

-- The Write of "1" is taken to succeed, and so is that of "0" above.
abbrev pub client_ok : ℕ → ℕ → Client → Daemon → Client × Daemon
client_ok unixfd recvfd c d =
    (c, record d { written = d.written ++ ((unixfd, all_ok) ∷ []); closed = recvfd ∷ d.closed })

-- The port of the descriptor; 0 is a socket that is not bound yet. The -1 of sock_bind_wild is stored as
-- an int of 32 bits.
unfoldable pub register : ℕ → ℕ → Passed → Client → Daemon → Option (ℕ × ℕ) → Client × Daemon
register unixfd recvfd r c d none = client_done unixfd (some recvfd) ((unixfd, bad) ∷ []) c d
register unixfd recvfd r c d (some (family, lport)) =
    if lport == 0
    then elim r.bound [
      | none ↦
          client_done unixfd (some recvfd) ((unixfd, bad) ∷ [])
            (record c { family = family; lport = 2 ^ 32 - 1 }) d
      | some port ↦ client_ok unixfd recvfd (record c { family = family; lport = port }) d
    ]
    else client_ok unixfd recvfd (record c { family = family; lport = lport }) d

unfoldable pub readable_conn : ℕ → Passed → Client → Daemon → Client × Daemon
readable_conn unixfd r c d = if r.ended then client_done unixfd r.recvfd [] c d else elim r.recvfd [
  | none ↦ client_done unixfd none ((unixfd, bad) ∷ []) c d
  | some recvfd ↦ register unixfd recvfd r c d r.sockname
]

-- The body of the loop over the clients at an entry, by what select and read_fd give for its
-- descriptor; `stay` and `next` are the rest of the loop. Behind the last readable descriptor the
-- loop ends.
unfoldable pub check_conn :
    ℕ
    → Client
    → List Client
    → (ℕ → Daemon → List Client × Daemon)
    → ℕ
    → Daemon
    → Option Passed
    → List Client × Daemon
check_conn fd c rest next nready d none = (c ∷ (next nready d).0, (next nready d).1)
check_conn fd c rest next nready d (some r) =
    let (c', d') = readable_conn fd r c d in
    if nready - 1 == 0
    then (c' ∷ rest, d')
    else (c' ∷ (next (nready - 1) d').0, (next (nready - 1) d').1)

abbrev pub ready_for : (ℕ → Option Passed) → Option ℕ → Option (ℕ × Option Passed)
ready_for readable none = none
ready_for readable (some fd) = some (fd, readable fd)

unfoldable pub check_entry :
    Client
    → List Client
    → (ℕ → Daemon → List Client × Daemon)
    → ℕ
    → Daemon
    → Option (ℕ × Option Passed)
    → List Client × Daemon
check_entry c rest next nready d none = (c ∷ (next nready d).0, (next nready d).1)
check_entry c rest next nready d (some (fd, r)) = check_conn fd c rest next nready d r

-- The loop over the entries up to `maxi`.
unfoldable pub check_conns :
    (ℕ → Option Passed) → ℕ → List Client → ℕ → Daemon → List Client × Daemon
check_conns readable zero clients nready d = (clients, d)
check_conns readable (suc n) [] nready d = ([], d)
check_conns readable (suc n) (c ∷ rest) nready d =
    check_entry c rest (check_conns readable n rest) nready d (ready_for readable c.connfd)

-- What select and the calls of a turn give.
pub record Turn : Type 0 where
  pub accepted : Option ℕ
  pub packet : Option Bytes
  pub readable : ℕ → Option Passed
  pub nready : ℕ

unfoldable pub check_clients : Turn → ℕ → Daemon → Daemon
check_clients t nready d =
    let (clients, d') = check_conns t.readable d.used d.client nready d in
    record d' { client = clients }

unfoldable pub after_v4 : Turn → ℕ → Option Handled → Option Handled
after_v4 t nready none = none
after_v4 t nready (some quit) = some quit
after_v4 t nready (some (handled d)) =
    some (handled (if nready - 1 == 0 then d else check_clients t (nready - 1) d))

unfoldable pub after_listen : Turn → ℕ → Daemon → Option Bytes → Option Handled
after_listen t nready d none = some (handled (check_clients t nready d))
after_listen t nready d (some buf) = after_v4 t nready (readable_v4 buf d)

unfoldable pub turn_for : Turn → Daemon → Option ℕ → Option Handled
turn_for t d none = after_listen t t.nready d t.packet
turn_for t d (some connfd) =
    if t.nready - 1 == 0
    then some (handled (readable_listen connfd d))
    else after_listen t (t.nready - 1) (readable_listen connfd d) t.packet

-- A turn of the loop of main.
unfoldable pub turn : Turn → Daemon → Option Handled
turn t d = turn_for t d t.accepted

-- ===== src/Server/Select.antt =====
-- unp/unpv13e/tcpcliserv/tcpservselect01.c: an echo server that keeps its clients in a table of
-- FD_SETSIZE descriptors and waits by select.
pub mod Loop
pub mod Table
use cpplearn.Common.{
  ℕ, zero, suc, ◌-◌, Option, none, some, List, [], ◌∷◌, Bytes, if◌then◌else◌, ◌==◌, ltb,
}

abbrev pub fd_setsize : ℕ
fd_setsize = 1024

-- `client[i]`: -1, an available entry, is `none`.
pub record ServerState : Type 0 where
  pub client : List (Option ℕ)
  -- `allset` beside `listenfd`, as a list of descriptors
  pub allset : List ℕ
  -- one more than the `maxi` of the source, whose -1 is 0 here
  pub used : ℕ
  pub maxfd : ℕ
  -- what the server has written, by descriptor, the latest first
  pub echoed : List (ℕ × Bytes)
  pub closed : List ℕ

-- What Read gives at a readable descriptor, no bytes at the end of the file; or it fails, or the Writen of
-- the bytes that it gives fails.
pub data FromClient : Type 0 where
  input : Bytes → FromClient
  read_fails : FromClient
  writen_fails : FromClient

-- What select and the system calls of one turn give: the new connection, if `listenfd` is readable,
-- what comes of each readable descriptor, and the count.
pub record Report : Type 0 where
  pub connection : Option ℕ
  pub readable : ℕ → Option FromClient
  pub nready : ℕ

-- `err_quit("too many clients")` ends the process, and so does `err_sys` in Read and Writen.
pub data Served : Type 0 where
  serving : ServerState → Served
  too_many : Served
  io_error : Served

abbrev pub shift : ℕ → Option (ℕ × List (Option ℕ)) → Option ℕ → Option (ℕ × List (Option ℕ))
shift n none entry = none
shift n (some (i, rest)) entry = some (suc i, entry ∷ rest)

-- The first available entry takes the descriptor; its index, `none` if there is none.
unfoldable pub save_descriptor : ℕ → List (Option ℕ) → Option (ℕ × List (Option ℕ))
save_descriptor connfd [] = none
save_descriptor connfd (none ∷ rest) = some (0, some connfd ∷ rest)
save_descriptor connfd (some fd ∷ rest) = shift 1 (save_descriptor connfd rest) (some fd)

abbrev pub max_of : ℕ → ℕ → ℕ
max_of a b = if ltb a b then b else a

unfoldable pub store : ℕ → ServerState → Option (ℕ × List (Option ℕ)) → Served
store connfd s none = too_many
store connfd s (some (i, client)) = serving (record s {
  client = client;
  allset = connfd ∷ s.allset;
  maxfd = max_of s.maxfd connfd;
  used = max_of s.used (suc i);
})

unfoldable pub add_client : ℕ → ServerState → Served
add_client connfd s = store connfd s (save_descriptor connfd s.client)

-- `FD_CLR(fd, &allset)`
unfoldable pub fd_clr : ℕ → List ℕ → List ℕ
fd_clr fd [] = []
fd_clr fd (d ∷ rest) = let others = fd_clr fd rest in if d == fd then others else d ∷ others

-- What one descriptor of the table does: the entry afterwards, and the effects on the rest; `none` is
-- the call of err_sys.
unfoldable pub serve_client : ℕ → FromClient → ServerState → Option (Option ℕ × ServerState)
serve_client fd (input []) s =
    some (none, record s { allset = fd_clr fd s.allset; closed = fd ∷ s.closed })
serve_client fd (input (b ∷ bytes)) s =
    some (some fd, record s { echoed = (fd, b ∷ bytes) ∷ s.echoed })
serve_client fd read_fails s = none
serve_client fd writen_fails s = none

-- The entry at an index goes before those behind it.
abbrev pub put_client :
    Option ℕ → Option (List (Option ℕ) × ServerState) → Option (List (Option ℕ) × ServerState)
put_client entry none = none
put_client entry (some (rest, s)) = some (entry ∷ rest, s)

-- `if (--nready <= 0) break;`; `next` is the rest of the loop, and `rest` the entries that it would
-- look at.
unfoldable pub after_client :
    List (Option ℕ)
    → (ℕ → ServerState → Option (List (Option ℕ) × ServerState))
    → ℕ
    → Option (Option ℕ × ServerState)
    → Option (List (Option ℕ) × ServerState)
after_client rest next nready none = none
after_client rest next nready (some (entry, s)) =
    if nready - 1 == 0 then some (entry ∷ rest, s) else put_client entry (next (nready - 1) s)

-- The body of the loop at an entry that holds a descriptor, of which the last argument is what select
-- and the calls give.
unfoldable pub check_entry :
    ℕ
    → List (Option ℕ)
    → (ℕ → ServerState → Option (List (Option ℕ) × ServerState))
    → ℕ
    → ServerState
    → Option FromClient
    → Option (List (Option ℕ) × ServerState)
check_entry fd rest next nready s none = put_client (some fd) (next nready s)
check_entry fd rest next nready s (some r) = after_client rest next nready (serve_client fd r s)

-- The loop over the entries from 0 to `maxi`. The list is the part of the table still to be looked
-- at; `s.client` is not used here.
unfoldable pub check_clients :
    (ℕ → Option FromClient)
    → ℕ
    → List (Option ℕ)
    → ℕ
    → ServerState
    → Option (List (Option ℕ) × ServerState)
check_clients readable zero entries nready s = some (entries, s)
check_clients readable (suc rounds) [] nready s = some ([], s)
check_clients readable (suc rounds) (none ∷ rest) nready s =
    put_client none (check_clients readable rounds rest nready s)
check_clients readable (suc rounds) (some fd ∷ rest) nready s =
    check_entry fd rest (check_clients readable rounds rest) nready s (readable fd)

abbrev pub all_checked : Option (List (Option ℕ) × ServerState) → Served
all_checked none = io_error
all_checked (some (client, s)) = serving (record s { client = client })

unfoldable pub check_all : Report → ℕ → ServerState → Served
check_all r nready s = all_checked (check_clients r.readable s.used s.client nready s)

-- `if (--nready <= 0) continue;` behind a new connection.
unfoldable pub after_add : Report → Served → Served
after_add r too_many = too_many
after_add r io_error = io_error
after_add r (serving s) = if r.nready - 1 == 0 then serving s else check_all r (r.nready - 1) s

-- A turn of the loop.
unfoldable pub select_turn : Report → ServerState → Served
select_turn r s = elim r.connection [
  | none ↦ check_all r r.nready s
  | some connfd ↦ after_add r (add_client connfd s)
]

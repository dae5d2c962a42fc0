-- ===== src/Server/Poll.antt =====
-- unp/unpv13e/tcpcliserv/tcpservpoll01.c: an echo server that keeps its clients in an array of pollfd and
-- waits by poll.
pub mod Loop
pub mod Account
use cpplearn.Common.{
  ℕ, zero, suc, ◌+◌, ◌-◌, Option, none, some, List, [], ◌∷◌, Bytes, if◌then◌else◌, ◌==◌,
}
use cpplearn.Server.Select.{save_descriptor, max_of}

-- `client[1]` and the entries behind it, by their descriptors; -1, an available entry, is `none`. The
-- entry 0 is that of listenfd, and `events` is POLLRDNORM wherever there is a descriptor.
pub record PollState : Type 0 where
  pub client : List (Option ℕ)
  pub maxi : ℕ
  -- what accept has given, what the server has written, by descriptor, and what it has closed, each the
  -- latest first
  pub accepted : List ℕ
  pub echoed : List (ℕ × Bytes)
  pub closed : List ℕ

-- What read gives, bytes being at least one, and whether the Writen of these bytes fails.
pub data ReadResult : Type 0 where
  bytes : Bytes → ReadResult
  at_eof : ReadResult
  connreset : ReadResult
  other_error : ReadResult
  write_fails : Bytes → ReadResult

-- What poll and the system calls of one turn give: the new connection, if `client[0]` is readable, what
-- read gives at each index whose `revents` has POLLRDNORM or POLLERR, and the count.
pub record PollReport : Type 0 where
  pub connection : Option ℕ
  pub revents : ℕ → Option ReadResult
  pub nready : ℕ

-- `err_quit("too many clients")` and `err_sys`, for a read and within Writen, end the process.
pub data Polled : Type 0 where
  polling : PollState → Polled
  no_entry : Polled
  read_error : Polled

-- The loop over the clients, and the state but for the entries; or the call of err_sys.
pub data Checked : Type 0 where
  checked : List (Option ℕ) → PollState → Checked
  failed : Checked

-- The entry at an index goes before those behind it.
abbrev pub put_entry : Option ℕ → Checked → Checked
put_entry entry failed = failed
put_entry entry (checked rest s) = checked (entry ∷ rest) s

-- What is done about a client: the entry afterwards, and the state; `none` is the call of err_sys.
unfoldable pub serve_entry : ℕ → ReadResult → PollState → Option (Option ℕ × PollState)
serve_entry sockfd (bytes data_read) s =
    some (some sockfd, record s { echoed = (sockfd, data_read) ∷ s.echoed })
serve_entry sockfd at_eof s = some (none, record s { closed = sockfd ∷ s.closed })
serve_entry sockfd connreset s = some (none, record s { closed = sockfd ∷ s.closed })
serve_entry sockfd other_error s = none
serve_entry sockfd (write_fails data_read) s = none

-- `if (--nready <= 0) break;`; `next` is the rest of the loop, `rest` the entries that it would look at.
unfoldable pub after_entry :
    List (Option ℕ) → (ℕ → PollState → Checked) → ℕ → Option (Option ℕ × PollState) → Checked
after_entry rest next nready none = failed
after_entry rest next nready (some (entry, s)) =
    if nready - 1 == 0 then checked (entry ∷ rest) s else put_entry entry (next (nready - 1) s)

abbrev pub check_client :
    ℕ → List (Option ℕ) → (ℕ → PollState → Checked) → ℕ → PollState → Option ReadResult → Checked
check_client sockfd rest next nready s none = put_entry (some sockfd) (next nready s)
check_client sockfd rest next nready s (some r) =
    after_entry rest next nready (serve_entry sockfd r s)

-- The loop from the index i on, for the rounds up to maxi, over the entries from there on.
unfoldable pub check_from :
    (ℕ → Option ReadResult) → (i rounds : ℕ) → List (Option ℕ) → ℕ → PollState → Checked
check_from revents i zero entries nready s = checked entries s
check_from revents i (suc rounds) [] nready s = checked [] s
check_from revents i (suc rounds) (none ∷ rest) nready s =
    put_entry none (check_from revents (i + 1) rounds rest nready s)
check_from revents i (suc rounds) (some sockfd ∷ rest) nready s =
    check_client sockfd rest (check_from revents (i + 1) rounds rest) nready s (revents i)

abbrev pub checked_table : Checked → Polled
checked_table failed = read_error
checked_table (checked client s) = polling (record s { client = client })

unfoldable pub check_table : PollReport → ℕ → PollState → Polled
unfolding check_from
check_table r nready s = checked_table (check_from r.revents 1 s.maxi s.client nready s)

-- The entry found has the index `suc i` in the array.
unfoldable pub store_descriptor : ℕ → PollState → Option (ℕ × List (Option ℕ)) → Polled
store_descriptor connfd s none = no_entry
store_descriptor connfd s (some (i, client)) =
    polling
      (record s { client = client; maxi = max_of s.maxi (suc i); accepted = connfd ∷ s.accepted })

-- `if (--nready <= 0) continue;` behind a new connection.
unfoldable pub after_store : PollReport → Polled → Polled
after_store r no_entry = no_entry
after_store r read_error = read_error
after_store r (polling s) = if r.nready - 1 == 0 then polling s else check_table r (r.nready - 1) s

-- Whether there is a new connection.
unfoldable pub turn_for : PollReport → PollState → Option ℕ → Polled
turn_for r s none = check_table r r.nready s
turn_for r s (some connfd) =
    after_store r (store_descriptor connfd s (save_descriptor connfd s.client))

-- A turn of the loop.
unfoldable pub poll_turn : PollReport → PollState → Polled
unfolding turn_for
poll_turn r s = turn_for r s r.connection

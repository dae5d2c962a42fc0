-- ===== src/Server/Poll/Account.antt =====
-- unp/unpv13e/tcpcliserv/tcpservpoll01.c: where the descriptors are.
use cpplearn.Common.{ℕ, suc, ◌+◌, ◌≡◌, Option, none, some, List, if◌then◌else◌, ◌==◌}
use cpplearn.Server.Select.{max_of}
use cpplearn.Server.Select.Table.{FreeFrom, IsFull}
use cpplearn.Server.Poll.{PollState, PollReport, Polled, polling, no_entry, read_error}
use cpplearn.Server.Poll.Loop.{times, held, Fails}

-- The entries behind maxi are available, and every descriptor that was accepted is in the table or was
-- closed, as often as it was accepted.
pub record IsPoll (s : PollState) : Type 0 where
  pub free : FreeFrom s.maxi s.client
  pub account : (fd : ℕ) → times fd s.accepted ≡ held fd s.client + times fd s.closed

-- The server goes on so; or the table that the turn began with was full; or a read or a Writen failed.
abbrev pub Polls : PollReport → PollState → Polled → Type 0
Polls r s (polling s') = IsPoll s'
Polls r s no_entry = IsFull s.client
Polls r s read_error = Fails r.revents

-- The first available entry is taken.
abbrev Taken : ℕ → ℕ → List (Option ℕ) → Option (ℕ × List (Option ℕ)) → Type 0
Taken connfd maxi client none = IsFull client
Taken connfd maxi client (some (i, client')) =
    FreeFrom (max_of maxi (suc i)) client'
    × ((fd : ℕ) → held fd client' ≡ (if connfd == fd then 1 else 0) + held fd client)

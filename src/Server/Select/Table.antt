-- ===== src/Server/Select/Table.antt =====
-- unp/unpv13e/tcpcliserv/tcpservselect01.c: the invariant of the table of clients.
use cpplearn.Common.{
  ℕ, zero, suc, ◌≤◌, ◌<◌, ◌≡◌, Option, none, some, List, [], ◌∷◌, length, All, arith,
}
use cpplearn.Server.Select.{ServerState, Report, Served, serving, too_many, io_error, max_of}
use cpplearn.Server.Select.Loop.{Fails}

-- The entries from an index on are available.
abbrev pub FreeFrom : ℕ → List (Option ℕ) → Type 0
FreeFrom i [] = Unit
FreeFrom zero (entry ∷ rest) = (entry ≡ none) × FreeFrom zero rest
FreeFrom (suc i) (entry ∷ rest) = FreeFrom i rest

-- A descriptor is no greater than `maxfd`.
abbrev pub IsBelow : ℕ → Option ℕ → Type 0
IsBelow maxfd none = Unit
IsBelow maxfd (some fd) = fd ≤ maxfd

-- Every entry holds a descriptor.
abbrev pub IsFull : List (Option ℕ) → Type 0
IsFull [] = Unit
IsFull (none ∷ rest) = ⊥
IsFull (some fd ∷ rest) = IsFull rest

abbrev pub IsTable : List (Option ℕ) → ℕ → ℕ → ℕ → Type 0
IsTable client size used maxfd =
    (length client ≡ size) × FreeFrom used client × All (IsBelow maxfd) client

pub record IsServer (size : ℕ) (s : ServerState) : Type 0 where
  pub table : IsTable s.client size s.used s.maxfd

-- The server goes on with its invariant; or the table that it began with was full; or a Read or a
-- Writen failed.
abbrev pub Serves : ℕ → Report → ServerState → Served → Type 0
Serves size r s (serving s') = IsServer size s'
Serves size r s too_many = IsFull s.client
Serves size r s io_error = Fails r.readable

pub FreeFrom-mono :
    (i j : ℕ) (client : List (Option ℕ)) → i ≤ j → FreeFrom i client → FreeFrom j client
FreeFrom-mono i j [] le h = tt
FreeFrom-mono zero zero (entry ∷ rest) le h = h
FreeFrom-mono zero (suc j) (entry ∷ rest) le h = FreeFrom-mono zero j rest (omega arith) h.1
FreeFrom-mono (suc i) zero (entry ∷ rest) le h = absurd (omega arith)
FreeFrom-mono (suc i) (suc j) (entry ∷ rest) le h = FreeFrom-mono i j rest (omega arith) h

pub FreeFrom-head :
    (used j connfd : ℕ) (rest : List (Option ℕ))
    → used ≤ j
    → 0 < j
    → FreeFrom used (none ∷ rest)
    → FreeFrom j (some connfd ∷ rest)
FreeFrom-head used zero connfd rest le pos h = absurd (omega arith)
FreeFrom-head zero (suc j) connfd rest le pos h = FreeFrom-mono zero j rest (omega arith) h.1
FreeFrom-head (suc used) (suc j) connfd rest le pos h = FreeFrom-mono used j rest (omega arith) h

abbrev Saved : ℕ → ℕ → ℕ → List (Option ℕ) → Option (ℕ × List (Option ℕ)) → Type 0
Saved connfd used maxfd client none = IsFull client
Saved connfd used maxfd client (some (i, client')) =
    IsTable client' (length client) (max_of used (suc i)) (max_of maxfd connfd)

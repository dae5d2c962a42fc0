-- ===== src/Server/Prefork.antt =====
-- unp/unpv13e/server/serv05.c and child.h: a parent that accepts connections and passes each to one
-- of its preforked children over a pipe.
pub mod Available
use cpplearn.Common.{
  ℕ, suc, ◌+◌, ◌-◌, Bool, true, false, not, ◌&&◌, Option, none, some, List, [], ◌∷◌, if◌then◌else◌,
  ◌==◌,
}

-- `child_status`: 0 is ready.
pub record Child : Type 0 where
  pub child_pipefd : ℕ
  pub child_busy : Bool
  pub child_count : ℕ

-- `passed` lists the children that connections have been passed to, the latest first.
pub record Parent : Type 0 where
  pub children : List Child
  pub navail : ℕ
  pub passed : List ℕ

-- A child's pipe at the call of select: no byte, the byte that says that the child is ready again,
-- or the end of the file, where the child has terminated.
pub data Pipe : Type 0 where
  idle again gone : Pipe

-- What select reports: the listening socket, the pipes by the child's index, and its count.
pub record Ready : Type 0 where
  pub listening : Bool
  pub pipes : List Pipe
  pub nsel : ℕ

-- `err_quit` ends the process.
pub data Turn : Type 0 where
  running : Parent → Turn
  no_children : Turn
  child_terminated : Turn

-- What the set handed to select holds: the listening socket only if a child is available.
abbrev pub listens : Parent → Bool
listens p = not (p.navail == 0)

-- The index and the children behind one that is passed over.
abbrev pub take_behind : Child → Option (ℕ × List Child) → Option (ℕ × List Child)
take_behind c none = none
take_behind c (some (i, rest)) = some (suc i, c ∷ rest)

abbrev pub make_busy : Child → Child
make_busy c = record c { child_busy = true; child_count = c.child_count + 1 }

-- The first child that is ready is marked busy; the index at which it stands, `none` at the end.
unfoldable pub take_ready : List Child → Option (ℕ × List Child)
take_ready [] = none
take_ready (c ∷ rest) =
    let later = take_behind c (take_ready rest) in
    if c.child_busy then later else some (0, make_busy c ∷ rest)

unfoldable pub pass_to : Parent → Option (ℕ × List Child) → Turn
pass_to p none = no_children
pass_to p (some (i, children)) =
    running (record p { children = children; navail = p.navail - 1; passed = i ∷ p.passed })

-- A new connection.
unfoldable pub pass_connection : Parent → Turn
pass_connection p = pass_to p (take_ready p.children)

-- The children behind one that is passed over, or taken up again.
abbrev pub behind : Child → ℕ → Option (List Child × ℕ) → Option (List Child × ℕ)
behind c n none = none
behind c n (some found) = some (c ∷ found.0, n + found.1)

-- The scan of the pipes: a byte on a child's pipe makes it ready. The scan ends when `nsel` falls to
-- zero. Gives the children and the number that `navail` grows by; `none` is err_quit.
unfoldable pub collect_ready : List Child → List Pipe → ℕ → Option (List Child × ℕ)
collect_ready [] pipes nsel = some ([], 0)
collect_ready (c ∷ rest) [] nsel = some (c ∷ rest, 0)
collect_ready (c ∷ rest) (idle ∷ pipes) nsel = behind c 0 (collect_ready rest pipes nsel)
collect_ready (c ∷ rest) (again ∷ pipes) nsel =
    let later = collect_ready rest pipes (nsel - 1) in
    let c' = record c { child_busy = false } in
    if nsel - 1 == 0 then some (c' ∷ rest, 1) else behind c' 1 later
collect_ready (c ∷ rest) (gone ∷ pipes) nsel = none

-- The second half of a turn.
unfoldable pub after_accept : List Pipe → ℕ → Parent → Turn
after_accept pipes nsel p = elim (collect_ready p.children pipes nsel) [
  | none ↦ child_terminated
  | some (children, freed) ↦ running (record p { children = children; navail = p.navail + freed })
]

-- What follows a new connection: `--nsel == 0` ends the turn.
unfoldable pub second_half : Ready → Turn → Turn
second_half r (running p) =
    if r.nsel - 1 == 0 then running p else after_accept r.pipes (r.nsel - 1) p
second_half r no_children = no_children
second_half r child_terminated = child_terminated

-- A turn of the loop, with what select has reported.
unfoldable pub turn : Ready → Parent → Turn
turn r p =
    if r.listening && listens p
    then second_half r (pass_connection p)
    else after_accept r.pipes r.nsel p

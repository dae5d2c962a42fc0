-- ===== src/Nonblock/Ends.antt =====
-- unp/unpv13e/nonblock/strclinonb.c: what select waits for, and the end of the file at the socket.
use cpplearn.Common.{
  ◌<◌, ◌≡◌, ◌⊎◌, ◌↔◌, inl, inr, refl, ap, ◌∙◌, Bool, true, false, [], length, if◌then◌else◌, ltb,
  arith, Bool-cases,
}
use cpplearn.Nonblock.{
  maxline, pending, Client, gives, Report, Outcome, running, returned, premature, wait_ready,
  sock_gave, from_stdin, from_sock, to_stdout, to_sock, and_then, turn,
}
use cpplearn.Nonblock.Buffers.{length-pending}
use cpplearn.Nonblock.Steps.{IsCopied}

-- A report in which every descriptor that select is asked about is ready.
abbrev pub all_ready : Report → Report
all_ready r = record r {
  stdin_ready = true;
  sock_readable = true;
  sock_writable = true;
  stdout_ready = true;
}

-- Select is asked to read a way exactly while there is room in its buffer, and while stdin has not
-- ended, to write it exactly while bytes are pending, and always about one descriptor at least.
pub wait_ready-Asks :
    (r : Report) (s : Client)
    → IsCopied s
    → ((wait_ready (all_ready r) s).read_sock ≡ true ↔ (length s.fr.filled < maxline))
      × ((wait_ready (all_ready r) s).write_stdout ≡ true ↔ (0 < length (pending s.fr)))
      × ((wait_ready (all_ready r) s).write_sock ≡ true ↔ (0 < length (pending s.to)))
      × (((wait_ready (all_ready r) s).read_sock ≡ true)
          ⊎ ((wait_ready (all_ready r) s).write_stdout ≡ true))
unfolding wait_ready
wait_ready-Asks r s h = (
  ground arith,
  ground (arith, length-pending s.fr, h.fr.ordered),
  ground (arith, length-pending s.to, h.to.ordered),
  elim (Bool-cases (ltb (length s.fr.filled) maxline)) [
    | inl e ↦ inl (rw e refl)
    | inr e ↦ inr (ground (arith, e, h.fr.ordered, h.fr.rewound))
  ],
)

if-false : (c : Bool) (a b : Outcome) → c ≡ false → (if c then a else b) ≡ b
if-false true a b e = absurd (cc)
if-false false a b e = refl

if-true : (c : Bool) (a b : Outcome) → c ≡ true → (if c then a else b) ≡ a
if-true true a b e = refl
if-true false a b e = absurd (cc)

read_stdin-quiet :
    (r : Report) (s : Client) → r.stdin_ready ≡ false → (wait_ready r s).read_stdin ≡ false
unfolding wait_ready
read_stdin-quiet r s quiet = ground (arith, quiet)

read_sock-ready :
    (r : Report) (s : Client)
    → r.sock_readable ≡ true
    → length s.fr.filled < maxline
    → (wait_ready r s).read_sock ≡ true
unfolding wait_ready
read_sock-ready r s ready room = ground (arith, ready)

from_stdin-quiet :
    (r : Report) (s : Client)
    → r.stdin_ready ≡ false
    → from_stdin r (wait_ready r s) ≡ running (wait_ready r s)
unfolding from_stdin
from_stdin-quiet r s quiet =
    if-false (wait_ready r s).read_stdin _ (running (wait_ready r s)) (read_stdin-quiet r s quiet)

and_then-ended :
    (r : Report) (s : Client) (c : Bool)
    → and_then (and_then (if c then returned s else premature s) (to_stdout r)) (to_sock r)
      ≡ (if c then returned s else premature s)
unfolding and_then
and_then-ended r s true = refl
and_then-ended r s false = refl

-- What remains of a turn behind a read of the socket that ends str_cli.
from_sock-eof :
    (r : Report) (s : Client)
    → s.read_sock ≡ true
    → r.sock_read ≡ gives []
    → and_then (and_then (from_sock r s) (to_stdout r)) (to_sock r)
      ≡ (if s.stdineof then returned s else premature s)
unfolding from_sock sock_gave
from_sock-eof r s e eof =
    ap (λ o. and_then (and_then o (to_stdout r)) (to_sock r))
      (if-true s.read_sock _ (running s) e ∙ ap (sock_gave s) eof)
    ∙ and_then-ended r s s.stdineof

-- The end of the file at the socket, in a turn in which stdin has nothing to say, ends str_cli at
-- once: normally if stdin has ended, and else with an error. The bytes in `fr` are not written any
-- more, nor those in `to`.
pub turn-eof :
    (r : Report) (s : Client)
    → r.stdin_ready ≡ false
    → r.sock_readable ≡ true
    → r.sock_read ≡ gives []
    → length s.fr.filled < maxline
    → turn r s ≡ (if s.stdineof then returned (wait_ready r s) else premature (wait_ready r s))
unfolding turn wait_ready and_then
turn-eof r s quiet ready eof room =
    ap (λ o. and_then (and_then (and_then o (from_sock r)) (to_stdout r)) (to_sock r))
      (from_stdin-quiet r s quiet)
    ∙ from_sock-eof r (wait_ready r s) (read_sock-ready r s ready room) eof

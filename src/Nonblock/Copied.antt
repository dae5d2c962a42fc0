-- ===== src/Nonblock/Copied.antt =====
-- unp/unpv13e/nonblock/strclinonb.c: what has been read, written and shut down in any run.
use cpplearn.Common.{◌<◌, ◌≡◌, refl, true, false, ◌&&◌, List, [], ◌∷◌, length, ltb, arith, if_keeps}
use cpplearn.Nonblock.{
  maxline, pending, Client, Report, Outcome, running, returned, premature, failed, start,
  wait_ready, stdin_gave, sock_gave, stdout_took, sock_took, from_stdin, from_sock, to_stdout,
  to_sock, and_then, turn, turns,
}
use cpplearn.Nonblock.Steps.{
  IsCopied, IsReady, Kept, Kept-and_then, stdin_gave-IsReady, sock_gave-IsReady,
  stdout_took-IsCopied, sock_took-IsCopied,
}

from_stdin-IsReady :
    (r : Report) (s : Client)
    → IsReady s
    → (s.read_stdin ≡ true → (s.stdineof ≡ false) × (length s.to.filled < maxline))
    → Kept IsReady (from_stdin r s)
unfolding from_stdin
from_stdin-IsReady r s h room =
    if_keeps (Kept IsReady) s.read_stdin (stdin_gave s r.stdin_read) (running s)
      (λ e. stdin_gave-IsReady s r.stdin_read h (room e).0 (room e).1) (λ e. h)

from_sock-IsCopied : (r : Report) (s : Client) → IsReady s → Kept IsCopied (from_sock r s)
unfolding from_sock
from_sock-IsCopied r s h =
    if_keeps (Kept IsCopied) s.read_sock (sock_gave s r.sock_read) (running s)
      (λ e. sock_gave-IsReady s r.sock_read h (h.room e)) (λ e. h.copied)

to_stdout-IsCopied : (r : Report) (s : Client) → IsCopied s → Kept IsCopied (to_stdout r s)
unfolding to_stdout
to_stdout-IsCopied r s h =
    if_keeps (Kept IsCopied) (s.write_stdout && ltb 0 (length (pending s.fr)))
      (stdout_took s r.stdout_write) (running s) (λ e. stdout_took-IsCopied s r.stdout_write h)
      (λ e. h)

to_sock-IsCopied : (r : Report) (s : Client) → IsCopied s → Kept IsCopied (to_sock r s)
unfolding to_sock
to_sock-IsCopied r s h =
    if_keeps (Kept IsCopied) (s.write_sock && ltb 0 (length (pending s.to)))
      (sock_took s r.sock_write) (running s)
      (λ e. sock_took-IsCopied s r.sock_write h (ground (arith, e))) (λ e. h)

Kept-from_sock :
    (r : Report) (o : Outcome) → Kept IsReady o → Kept IsCopied (and_then o (from_sock r))
unfolding and_then
Kept-from_sock r (running s) h = from_sock-IsCopied r s h
Kept-from_sock r (returned s) h = h.copied
Kept-from_sock r (premature s) h = h.copied
Kept-from_sock r (failed e s) h = h.copied

wait_ready-IsReady : (r : Report) (s : Client) → IsCopied s → IsReady (wait_ready r s)
unfolding wait_ready
wait_ready-IsReady r s h = record {
  copied = record { to = h.to; fr = h.fr; out = h.out; back = h.back; fin = h.fin };
  room = λ e. ground (arith, e);
}

read_stdin-room :
    (r : Report) (s : Client)
    → (wait_ready r s).read_stdin ≡ true
    → ((wait_ready r s).stdineof ≡ false) × (length (wait_ready r s).to.filled < maxline)
unfolding wait_ready
read_stdin-room r s e = (ground (arith, e), ground (arith, e))

-- A turn keeps it, and str_cli has it where it ends.
turn-IsCopied : (r : Report) (s : Client) → IsCopied s → Kept IsCopied (turn r s)
unfolding turn
turn-IsCopied r s h =
    Kept-and_then IsCopied _ (to_sock r)
      (Kept-and_then IsCopied _ (to_stdout r)
        (Kept-from_sock r (from_stdin r (wait_ready r s))
          (from_stdin-IsReady r (wait_ready r s) (wait_ready-IsReady r s h) (read_stdin-room r s)))
        (to_stdout-IsCopied r))
      (to_sock-IsCopied r)

turns-IsCopied : (rs : List Report) (s : Client) → IsCopied s → Kept IsCopied (turns rs s)
unfolding turns
turns-IsCopied [] s h = h
turns-IsCopied (r ∷ rs) s h =
    Kept-and_then IsCopied (turn r s) (turns rs) (turn-IsCopied r s h) (turns-IsCopied rs)

start-IsCopied : IsCopied start
unfolding start pending
start-IsCopied = record {
  to = record { ordered = omega arith; bounded = omega arith; rewound = λ e. refl };
  fr = record { ordered = omega arith; bounded = omega arith; rewound = λ e. refl };
  out = refl;
  back = refl;
  fin = refl;
}

-- In any run of str_cli, wherever it is cut off or ends, the bytes that were written to the socket
-- and those in `to` are together the bytes read from stdin, in order, and so are those written to
-- stdout and in `fr` the bytes read from the socket; both buffers stay within MAXLINE; and FIN was
-- sent exactly once if stdin has ended and `to` is empty, and not at all otherwise.
pub turns-Copied : (rs : List Report) → Kept IsCopied (turns rs start)
turns-Copied rs = turns-IsCopied rs start start-IsCopied

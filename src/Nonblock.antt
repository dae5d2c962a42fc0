-- ===== src/Nonblock.antt =====
-- unp/unpv13e/nonblock/strclinonb.c: the client that copies its standard input to a socket and the
-- socket to its standard output, with descriptors that do not block and a buffer for each way.
pub mod Buffers
pub mod Steps
pub mod Copied
pub mod Ends
use cpplearn.Common.{
  ℕ, suc, ◌+◌, ◌-◌, Bool, true, false, not, ◌&&◌, List, [], ◌∷◌, ◌++◌, Bytes, length, take, drop,
  min, if◌then◌else◌, ◌==◌, ltb,
}

abbrev pub maxline : ℕ
maxline = 4096

-- `to` or `fr`: `filled` are the bytes before `toiptr`, so `toiptr` is its length, and `tooptr` is
-- an index.
pub record Buffer : Type 0 where
  pub filled : Bytes
  pub optr : ℕ

-- `toiptr - tooptr`, the bytes that are still to be written.
unfoldable pub pending : Buffer → Bytes
pending b = drop b.optr b.filled

-- `toiptr += n`, behind a read to `toiptr`.
unfoldable pub fill : Bytes → Buffer → Buffer
fill bytes b = record b { filled = b.filled ++ bytes }

-- `tooptr += nwritten`, and back to the beginning of the buffer when it is empty.
unfoldable pub wrote : ℕ → Buffer → Buffer
wrote n b =
    if b.optr + n == length b.filled
    then record { filled = []; optr = 0 }
    else record b { optr = b.optr + n }

pub record Client : Type 0 where
  pub to : Buffer
  pub fr : Buffer
  pub stdineof : Bool
  -- the bits of `rset` and `wset` in a turn
  pub read_stdin : Bool
  pub read_sock : Bool
  pub write_sock : Bool
  pub write_stdout : Bool
  -- what has been read from stdin and from the socket, and written to the socket and to stdout
  pub typed : Bytes
  pub received : Bytes
  pub sent : Bytes
  pub shown : Bytes
  -- how often Shutdown(sockfd, SHUT_WR) was called
  pub fins : ℕ

-- What a read or a write gives: -1 with EWOULDBLOCK or with another errno, or a count.
pub data Result {ℓ} (A : Type ℓ) : Type ℓ where
  would_block : Result A
  fails : ℕ → Result A
  gives : A → Result A

-- What select and the system calls of a turn give. A read gives the bytes that have arrived, none at
-- the end of the file; it takes at most the space that is left. A write gives how many bytes the
-- kernel would take.
pub record Report : Type 0 where
  pub stdin_ready : Bool
  pub sock_readable : Bool
  pub sock_writable : Bool
  pub stdout_ready : Bool
  pub stdin_read : Result Bytes
  pub sock_read : Result Bytes
  pub sock_write : Result ℕ
  pub stdout_write : Result ℕ

-- `return`, `err_quit("str_cli: server terminated prematurely")`, and err_sys with the errno.
pub data Outcome : Type 0 where
  running : Client → Outcome
  returned : Client → Outcome
  premature : Client → Outcome
  failed : ℕ → Client → Outcome

unfoldable pub start : Client
start = record {
  to = record { filled = []; optr = 0 };
  fr = record { filled = []; optr = 0 };
  stdineof = false;
  read_stdin = false;
  read_sock = false;
  write_sock = false;
  write_stdout = false;
  typed = [];
  received = [];
  sent = [];
  shown = [];
  fins = 0;
}

-- The sets of the turn, asked for and then as select leaves them.
unfoldable pub wait_ready : Report → Client → Client
wait_ready r s = record s {
  read_stdin = not s.stdineof && ltb (length s.to.filled) maxline && r.stdin_ready;
  read_sock = ltb (length s.fr.filled) maxline && r.sock_readable;
  write_sock = not (s.to.optr == length s.to.filled) && r.sock_writable;
  write_stdout = not (s.fr.optr == length s.fr.filled) && r.stdout_ready;
}

-- Shutdown if the condition holds.
unfoldable pub send_fin : Bool → Client → Client
send_fin true s = record s { fins = suc s.fins }
send_fin false s = s

unfoldable pub stdin_gave : Client → Result Bytes → Outcome
stdin_gave s would_block = running s
stdin_gave s (fails e) = failed e s
stdin_gave s (gives []) =
    running (send_fin (s.to.optr == length s.to.filled) (record s { stdineof = true }))
stdin_gave s (gives (b ∷ bytes)) =
    let new = take (maxline - length s.to.filled) (b ∷ bytes) in
    running (record s { to = fill new s.to; typed = s.typed ++ new; write_sock = true })

unfoldable pub sock_gave : Client → Result Bytes → Outcome
sock_gave s would_block = running s
sock_gave s (fails e) = failed e s
sock_gave s (gives []) = if s.stdineof then returned s else premature s
sock_gave s (gives (b ∷ bytes)) =
    let new = take (maxline - length s.fr.filled) (b ∷ bytes) in
    running (record s { fr = fill new s.fr; received = s.received ++ new; write_stdout = true })

unfoldable pub stdout_took : Client → Result ℕ → Outcome
stdout_took s would_block = running s
stdout_took s (fails e) = failed e s
stdout_took s (gives k) =
    let n = min k (length (pending s.fr)) in
    running (record s { fr = wrote n s.fr; shown = s.shown ++ take n (pending s.fr) })

unfoldable pub sock_took : Client → Result ℕ → Outcome
sock_took s would_block = running s
sock_took s (fails e) = failed e s
sock_took s (gives k) =
    let n = min k (length (pending s.to)) in
    running (
      send_fin (s.to.optr + n == length s.to.filled && s.stdineof)
        (record s { to = wrote n s.to; sent = s.sent ++ take n (pending s.to) }))

unfoldable pub from_stdin : Report → Client → Outcome
from_stdin r s = if s.read_stdin then stdin_gave s r.stdin_read else running s

unfoldable pub from_sock : Report → Client → Outcome
from_sock r s = if s.read_sock then sock_gave s r.sock_read else running s

unfoldable pub to_stdout : Report → Client → Outcome
to_stdout r s =
    if s.write_stdout && ltb 0 (length (pending s.fr))
    then stdout_took s r.stdout_write
    else running s

unfoldable pub to_sock : Report → Client → Outcome
to_sock r s =
    if s.write_sock && ltb 0 (length (pending s.to)) then sock_took s r.sock_write else running s

unfoldable pub and_then : Outcome → (Client → Outcome) → Outcome
and_then (running s) next = next s
and_then (returned s) next = returned s
and_then (premature s) next = premature s
and_then (failed e s) next = failed e s

-- A turn of the loop.
unfoldable pub turn : Report → Client → Outcome
turn r s =
    and_then (and_then (and_then (from_stdin r (wait_ready r s)) (from_sock r)) (to_stdout r))
      (to_sock r)

-- As many turns as there are reports, unless str_cli ends before.
unfoldable pub turns : List Report → Client → Outcome
turns [] s = running s
turns (r ∷ rest) s = and_then (turn r s) (turns rest)

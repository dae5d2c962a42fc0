-- ===== src/Io/Readline.antt =====
-- unp/unpv13e/lib/readline.c: a line from a descriptor, read through a static buffer.
pub mod Lines
pub mod Reentrant
pub mod Threads
use cpplearn.Common.{
  ℕ, zero, suc, ◌+◌, ◌-◌, Bool, true, false, not, ◌&&◌, ◌||◌, List, [], ◌∷◌, ◌++◌, Bytes,
  if◌then◌else◌, ◌==◌,
}
use cpplearn.Io.Events.{
  Event, chunk, interrupted, broken, ReadResult, got, eintr, error, read, End, closed, failure,
  stream, ending, stream-chunk,
}

-- MAXLINE, the size of `read_buf`
abbrev pub max_line : ℕ
max_line = 4096

abbrev pub newline : ℕ
newline = b'\n'

-- The bytes from `read_ptr` on, `read_cnt` in number, and what the descriptor does next.
pub record Input : Type 0 where
  pub buffered : Bytes
  pub events : List Event

-- `my_read` returns 1 and a byte, 0, or -1 with errno.
pub data MyRead : Type 0 where
  byte : ℕ → Input → MyRead
  at_end : Input → MyRead
  fault : ℕ → Input → MyRead

deliver : Bytes → List Event → MyRead
deliver [] events = at_end (record { buffered = []; events = events })
deliver (b ∷ bytes) events = byte b (record { buffered = bytes; events = events })

-- The label `again`: EINTR takes the code back to it.
refill : List Event → MyRead
unfolding deliver
refill [] = at_end (record { buffered = []; events = [] })
refill (event ∷ rest) =
    let (result, left) = read max_line (event ∷ rest) in
    elim result [
      | got bytes ↦ deliver bytes left
      | eintr ↦ refill rest
      | error e ↦ fault e (record { buffered = []; events = left })
    ]

my_read_from : Bytes → List Event → MyRead
unfolding refill
my_read_from [] events = refill events
my_read_from (b ∷ bytes) events = byte b (record { buffered = bytes; events = events })

unfoldable pub my_read : Input → MyRead
unfolding my_read_from
my_read s = my_read_from s.buffered s.events

-- The return value and the bytes stored before the final null byte; or -1 with errno.
pub data Line : Type 0 where
  line : ℕ → Bytes → Input → Line
  minus_one : ℕ → Input → Line

-- The body of the loop behind its call of my_read; `next` is the next round.
unfoldable pub after_my_read : (Bytes → Input → Line) → ℕ → Bytes → MyRead → Line
after_my_read next n stored (byte c s) =
    if c == newline then line n (stored ++ c ∷ []) s else next (stored ++ c ∷ []) s
after_my_read next n stored (at_end s) = line (n - 1) stored s
after_my_read next n stored (fault e s) = minus_one e s

-- The loop from `n` on, with `rounds` left below `maxlen`; `stored` is what `ptr` has passed.
readline_loop : ℕ → ℕ → Bytes → Input → Line
readline_loop zero n stored s = line n stored s
readline_loop (suc rounds) n stored s =
    after_my_read (readline_loop rounds (n + 1)) n stored (my_read s)

unfoldable pub readline : ℕ → Input → Line
unfolding readline_loop my_read after_my_read
readline maxlen s = readline_loop (maxlen - 1) 1 [] s

-- All that the descriptor still has to give.
abbrev pub pending : Input → Bytes
pending s = s.buffered ++ stream s.events

-- A line of at most `k` bytes: up to the first newline, and with it.
abbrev pub line_of : ℕ → Bytes → Bytes
line_of zero bytes = []
line_of (suc k) [] = []
line_of (suc k) (c ∷ bytes) = if c == newline then c ∷ [] else c ∷ line_of k bytes

-- The bytes hold a whole line of at most `k` bytes, or `k` bytes.
abbrev pub is_complete : ℕ → Bytes → Bool
is_complete zero bytes = true
is_complete (suc k) [] = false
is_complete (suc k) (c ∷ bytes) = c == newline || is_complete k bytes

-- There is no newline in `k` bytes that are there.
abbrev pub is_cut : ℕ → Bytes → Bool
is_cut zero bytes = true
is_cut (suc k) [] = false
is_cut (suc k) (c ∷ bytes) = not (c == newline) && is_cut k bytes

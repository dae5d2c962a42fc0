-- ===== src/Io/Events.antt =====
-- What the environment of a descriptor does: the system calls read and write, as the code sees them.
use cpplearn.Common.{
  ℕ, ◌<◌, ◌≡◌, refl, List, [], ◌∷◌, ◌++◌, Bytes, length, take, drop, if◌then◌else◌, leb, arith,
}

-- Bytes that arrive together, a call that a signal interrupts (EINTR), a call that fails with
-- another `errno`. Behind the last event, and at a chunk of no bytes, is the end of the file.
pub data Event : Type 0 where
  chunk : Bytes → Event
  interrupted : Event
  broken : ℕ → Event

-- What `read` returns: bytes, where none are the end of the file, or -1 with EINTR or another errno.
pub data ReadResult : Type 0 where
  got : Bytes → ReadResult
  eintr : ReadResult
  error : ℕ → ReadResult

-- `read(fd, ptr, n)`: at most `n` bytes of what has arrived; the others stay for the next call.
unfoldable pub read : ℕ → List Event → ReadResult × List Event
read n [] = (got [], [])
read n (chunk bytes ∷ rest) =
    if leb (length bytes) n
    then (got bytes, rest)
    else (got (take n bytes), chunk (drop n bytes) ∷ rest)
read n (interrupted ∷ rest) = (eintr, rest)
read n (broken e ∷ rest) = (error e, rest)

-- How a stream ends.
pub data End : Type 0 where
  closed : End
  failure : ℕ → End

-- The bytes before the end of the file or the first failure, however they are cut into chunks and
-- whatever signals arrive between them.
abbrev pub stream : List Event → Bytes
stream [] = []
stream (chunk [] ∷ rest) = []
stream (chunk (b ∷ bytes) ∷ rest) = b ∷ (bytes ++ stream rest)
stream (interrupted ∷ rest) = stream rest
stream (broken e ∷ rest) = []

abbrev pub ending : List Event → End
ending [] = closed
ending (chunk [] ∷ rest) = closed
ending (chunk (b ∷ bytes) ∷ rest) = ending rest
ending (interrupted ∷ rest) = ending rest
ending (broken e ∷ rest) = failure e

-- A chunk of some bytes stands before the rest of the stream.
pub stream-chunk :
    (bytes : Bytes) (rest : List Event)
    → 0 < length bytes
    → (stream (chunk bytes ∷ rest) ≡ bytes ++ stream rest)
      × (ending (chunk bytes ∷ rest) ≡ ending rest)
stream-chunk [] rest h = absurd (omega arith)
stream-chunk (b ∷ bytes) rest h = (refl, refl)

pub read-more :
    (n : ℕ) (bytes : Bytes) (rest : List Event)
    → n < length bytes
    → read n (chunk bytes ∷ rest) ≡ (got (take n bytes), chunk (drop n bytes) ∷ rest)
unfolding read
read-more n bytes rest h = ground arith
